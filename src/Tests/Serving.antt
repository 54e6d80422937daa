-- ===== src/Tests/Serving.antt =====
-- Examples of requests to the HTTP API.
use pktlab.Base.{ℕ, ◌≡◌, refl, true, false, none, some, List, [], ◌∷◌}
use pktlab.State.{
  make_observed, validate_optional_positive, DatapathStateValue, ControllerStateValue,
}
use pktlab.Topology.Manager.{Managed}
use pktlab.Controller.{Plant}
use pktlab.Controller.Parts.{observe_again, current_datapath_status, observe}
use pktlab.Controller.Health.{recompute_controller_health, observed_from_datapath}
use pktlab.Error.{get_entry}
use pktlab.Ipc.Protocol.{
  pack, unpack, frame_payload, read_exact, read_loop, recv_frame, encode_request, send_request,
  recv_response, parse_response, parse_loaded, envelope,
}
use pktlab.Ipc.Client.{exchange, read_response, typed_call}
use pktlab.Process.Fields.{set_last_health, set_ready}
use pktlab.Process.Supervisor.{status, status_of, refresh_ipc_state, require_client, demand}
use pktlab.Controller.Commands.{health_snapshot}
use pktlab.Api.{
  Request, answer, get_health, get_datapath_stats, reset_stats_request, pause_request,
  resume_request, apply_request, destroy_request, http_exception, health_body, stats_body,
  reset_body, control_body, serve, serve_all, lifespan,
}
use pktlab.Api.Models.{
  health_response, datapath_health_model_from_status, HealthResponseModel, DatapathHealthModel,
}
use pktlab.Api.Answers.{no_supervisor, serve-conflict}
use pktlab.Api.Health.{IsConsistent, get_health-IsTrue}
use pktlab.Api.Lifecycle.{Run, applied_path, serve_all-Run}
use pktlab.Api.Lifespan.{Ends, lifespan-IsShutDown}
use pktlab.Tests.Control.{env, healthy_env, serving, unmanaged, idle}

-- What the datapath of `healthy` is reported to be.
abbrev reported : DatapathHealthModel
reported = record {
  managed = true;
  reachable = true;
  socket_path = "/run/dp.sock";
  pid = some 1;
  exit_code = none;
  last_error = none;
  service = some "pktlab-dpdkd";
  version = some "0.1.0";
  dpdk_version = some "23.11";
  state = some DatapathStateValue.running;
  message = some "ready";
  applied_rule_version = some 4;
  ports_ready = true;
  paused = false;
}

abbrev health : HealthResponseModel
health = record {
  controller = record {
    service = "pktlab-ctrld";
    version = "0.1.0";
    state = ControllerStateValue.running;
    message = "controller ready";
  };
  datapath = reported;
}

answered :
    serve healthy_env get_health serving
    ≡ (health_body (answer health), (serve healthy_env get_health serving).1)
unfolding serve health_snapshot current_datapath_status observe_again observe observed_from_datapath
    make_observed validate_optional_positive recompute_controller_health health_response
    datapath_health_model_from_status status status_of refresh_ipc_state require_client demand
    set_last_health set_ready typed_call exchange read_response send_request recv_response
    recv_frame read_exact read_loop encode_request frame_payload pack unpack parse_response
    parse_loaded envelope get_entry pktlab.Ipc.Client.call
answered = refl

get_health-IsTrue_example : IsConsistent reported
get_health-IsTrue_example =
    get_health-IsTrue healthy_env serving (serve healthy_env get_health serving).1 health answered
      refl

abbrev without_supervisor : Managed (Plant (List ℕ))
without_supervisor = record { current = none; plant = unmanaged }

serve-conflict_example :
    (serve env get_datapath_stats without_supervisor
      ≡ (stats_body (http_exception 409 no_supervisor), without_supervisor))
    × (serve env reset_stats_request without_supervisor
        ≡ (reset_body (http_exception 409 no_supervisor), without_supervisor))
    × (serve env pause_request without_supervisor
        ≡ (control_body (http_exception 409 no_supervisor), without_supervisor))
    × (serve env resume_request without_supervisor
        ≡ (control_body (http_exception 409 no_supervisor), without_supervisor))
serve-conflict_example = serve-conflict env without_supervisor refl

lifespan-IsShutDown_example : Ends env (
    lifespan env
      (get_health ∷ pause_request ∷ destroy_request ∷ [])
      (record { current = none; plant = idle }))
lifespan-IsShutDown_example =
    lifespan-IsShutDown env (get_health ∷ pause_request ∷ destroy_request ∷ [])
      (record { current = none; plant = idle }) refl

abbrev requests : List Request
requests =
    destroy_request
    ∷ apply_request (record { config_path = "lab.yaml" })
    ∷ get_health
    ∷ destroy_request
    ∷ []

serve_all-Run_example :
    Run
      (some "lab.yaml")
      requests
      (serve_all healthy_env requests serving).0
      (applied_path (serve_all healthy_env requests serving).1.current)
serve_all-Run_example = serve_all-Run healthy_env requests serving
