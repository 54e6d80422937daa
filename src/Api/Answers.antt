-- ===== src/Api/Answers.antt =====
-- What the routes answer when the controller refuses.
use pktlab.Base.{◌≡◌, refl, none}
use pktlab.Error.{Value, to_dict, pktlab_error, state_conflict, end}
use pktlab.Topology.Manager.{Managed}
use pktlab.Controller.{Plant, Env}
use pktlab.Controller.Runtime.Ending.{commands-conflict}
use pktlab.Api.{
  get_datapath_stats, reset_stats_request, pause_request, resume_request, http_exception,
  stats_body, reset_body, control_body, reply, datapath_http_status, serve,
}

-- The error of a controller without a supervisor, as a JSON document.
abbrev pub no_supervisor : Value
no_supervisor =
    to_dict (pktlab_error state_conflict "controller is not supervising a datapath process" end)

module _ {W : Type 0} (env : Env W) where
  -- Without a supervisor, the routes for the statistics, their reset, pausing and resuming all
  -- answer 409 with the error as the detail, and leave the controller as it is.
  pub serve-conflict :
      (s : Managed (Plant W))
      → s.plant.runtime.supervisor ≡ none
      → (serve env get_datapath_stats s ≡ (stats_body (http_exception 409 no_supervisor), s))
        × (serve env reset_stats_request s ≡ (reset_body (http_exception 409 no_supervisor), s))
        × (serve env pause_request s ≡ (control_body (http_exception 409 no_supervisor), s))
        × (serve env resume_request s ≡ (control_body (http_exception 409 no_supervisor), s))
  unfolding serve reply datapath_http_status
  serve-conflict s h =
      let (stats, reset, pause, resume) = commands-conflict env s.plant h in
      (rw stats refl, rw reset refl, rw pause refl, rw resume refl)
