-- ===== src/Api.antt =====
-- The HTTP API: the package ctrld/pktlab_ctrld/api. A request is answered by its route on the
-- controller's state; the application starts the controller, serves requests and stops it.
-- FastAPI's own work, the parsing of requests and the writing of responses, is left out.
pub mod Models
pub mod Answers
pub mod Health
pub mod Live
pub mod Lifecycle
pub mod Lifespan
use pktlab.Base.{ℕ, String, List, [], ◌∷◌}
use pktlab.Error.{
  Value, PktlabError, to_dict, ErrorCode, state_conflict, datapath_transport_error, process_error,
  timeout, topology_validation_error, config_parse_error, Exn, typed,
}
use pktlab.Effect.{Outcome, ok, raised, Action}
use pktlab.Topology.Manager.{Managed, on_plant}
use pktlab.Controller.{Plant, Env}
use pktlab.Controller.Parts.{Act}
use pktlab.Controller.Runtime.{start, stop, apply_topology, destroy_topology}
use pktlab.Controller.Commands.{
  health_snapshot, datapath_status_snapshot, datapath_stats_snapshot, reset_datapath_stats,
  pause_datapath, resume_datapath,
}
use pktlab.Api.Models.{
  HealthResponseModel, DatapathStatusResponseModel, DatapathStatsResponseModel,
  DatapathStatsResetResponseModel, DatapathControlResponseModel, TopologyApplyRequestModel,
  TopologyOperationResponseModel, health_response, status_response, stats_response,
  stats_reset_response, control_response, topology_response,
}

-- `_to_http_exception` of api/routes_datapath.py: the status code.
unfoldable pub datapath_http_status : ErrorCode → ℕ
datapath_http_status state_conflict = 409
datapath_http_status datapath_transport_error = 503
datapath_http_status process_error = 503
datapath_http_status timeout = 503
datapath_http_status _ = 500

-- `_to_http_exception` of api/routes_topology.py: the status code.
unfoldable pub topology_http_status : ErrorCode → ℕ
topology_http_status topology_validation_error = 422
topology_http_status config_parse_error = 422
topology_http_status state_conflict = 409
topology_http_status _ = 500

-- The end of a route: a model, an HTTPException with its detail, or an exception that no handler
-- of the route names.
pub data Reply (M : Type 0) : Type 0 where
  answer : M → Reply M
  http_exception : ℕ → Value → Reply M
  unhandled : Exn → Reply M

abbrev pub finished : {M : Type 0} → Outcome M → Reply M
finished (ok m) = answer m
finished (raised e) = unhandled e

-- `try: r = method() except PktlabError as exc: raise _to_http_exception(exc) from exc`, and then
-- the response that is made from the result.
unfoldable pub reply : {R M : Type 0} → (ErrorCode → ℕ) → (R → Outcome M) → Outcome R → Reply M
reply status view (ok r) = finished (view r)
reply status view (raised (typed e)) = http_exception (status e.code) (to_dict e)
reply status view (raised e) = unhandled e

pub data Request : Type 0 where
  get_health get_datapath_status get_datapath_stats reset_stats_request : Request
  pause_request resume_request destroy_request : Request
  apply_request : TopologyApplyRequestModel → Request

pub data Response : Type 0 where
  health_body : Reply HealthResponseModel → Response
  status_body : Reply DatapathStatusResponseModel → Response
  stats_body : Reply DatapathStatsResponseModel → Response
  reset_body : Reply DatapathStatsResetResponseModel → Response
  control_body : Reply DatapathControlResponseModel → Response
  topology_body : Reply TopologyOperationResponseModel → Response

-- A route of the datapath router, which answers by a method of the controller.
abbrev pub datapath_route :
    {S R M : Type 0} → (Reply M → Response) → (R → Outcome M) → Action S R → S → Response × S
datapath_route body view method s =
    let (r, s') = method s in (body (reply datapath_http_status view r), s')

abbrev pub topology_route :
    {S R M : Type 0} → (Reply M → Response) → (R → Outcome M) → Action S R → S → Response × S
topology_route body view method s =
    let (r, s') = method s in (body (reply topology_http_status view r), s')

-- `get_health`, which names no exception.
abbrev pub health_reply : {R M : Type 0} → (R → Outcome M) → Outcome R → Reply M
health_reply view (ok r) = finished (view r)
health_reply view (raised e) = unhandled e

module _ {W : Type 0} (env : Env W) where
  abbrev pub Served : Type 0
  Served = Managed (Plant W) → Response × Managed (Plant W)

  -- The routes.
  unfoldable pub serve : Request → Served
  serve get_health s =
      let (r, s') = on_plant (health_snapshot env) s in
      (health_body (health_reply health_response r), s')
  serve get_datapath_status s =
      datapath_route status_body status_response (on_plant (datapath_status_snapshot env)) s
  serve get_datapath_stats s =
      datapath_route stats_body stats_response (on_plant (datapath_stats_snapshot env)) s
  serve reset_stats_request s =
      datapath_route reset_body stats_reset_response (on_plant (reset_datapath_stats env)) s
  serve pause_request s =
      datapath_route control_body control_response (on_plant (pause_datapath env)) s
  serve resume_request s =
      datapath_route control_body control_response (on_plant (resume_datapath env)) s
  serve destroy_request s = topology_route topology_body topology_response (destroy_topology env) s
  serve (apply_request payload) s =
      topology_route topology_body topology_response (apply_topology env payload.config_path) s

  -- Requests, one after the other.
  unfoldable pub serve_all : List Request → Managed (Plant W) → List Response × Managed (Plant W)
  serve_all [] s = ([], s)
  serve_all (request ∷ rest) s =
      let (response, s') = serve request s in
      let (responses, s'') = serve_all rest s' in (response ∷ responses, s'')

  -- The end of the life of the application: the requests, and `controller.stop()` in any case.
  unfoldable pub run_and_stop : List Request → Act W (List Response)
  run_and_stop requests s =
      let (responses, s') = serve_all requests s in
      let (ended, s'') = stop env s' in
      (elim ended [ ok _ ↦ ok responses | raised e ↦ raised e ], s'')

  -- `lifespan` of `create_api_app`: a start that raises ends it.
  unfoldable pub lifespan : List Request → Act W (List Response)
  lifespan requests s =
      let (started, s') = on_plant (start env) s in
      elim started [ raised e ↦ (raised e, s') | ok _ ↦ run_and_stop requests s' ]
