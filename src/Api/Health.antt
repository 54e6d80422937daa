-- ===== src/Api/Health.antt =====
-- What the health that the API reports says of the datapath.
use pktlab.Base.{
  ◌≡◌, refl, sym, ◌∙◌, String, Bool, true, false, Option, none, some, is_some, on_option,
  if◌then◌else◌, ◌&&◌,
}
use pktlab.Effect.{Outcome, ok, raised, pure, and_then, ◌>>◌}
use pktlab.Effect.Returns.{
  Returns, Returns-if, Returns-on_option, Returns-pure, Returns-bind, Returns-step, Holds,
}
use pktlab.Process.{DatapathProcessStatus, Supervised, DpdkdSupervisor}
use pktlab.Process.Supervisor.Status.{IsReport, status-Returns}
use mathlib.Core.Path.{subst}
use pktlab.Topology.Manager.{Managed}
use pktlab.Controller.{ControllerRuntime, Plant, Env, ControllerHealthSnapshot}
use pktlab.Controller.Health.{unmanaged_datapath_status}
use pktlab.Controller.Parts.{
  on_supervisor, current_datapath_status, observe_again, recompute, runtime, sup_status,
}
use pktlab.Controller.Commands.{health_snapshot, snapshot}
use pktlab.Api.{Reply, answer, finished, health_reply, health_body, serve, get_health}
use pktlab.Api.Models.{
  ControllerHealthModel, DatapathHealthModel, HealthResponseModel,
  datapath_health_model_from_status, health_response, datapath_health_fields, fits_datapath_health,
  constructed,
}

-- A status that, if the datapath is reachable, is a consistent report.
abbrev pub Reported : DatapathProcessStatus → Type 0
Reported s = s.reachable ≡ true → IsReport s

module _ {W : Type 0} (env : Env W) where
  status-Reported : (s : DpdkdSupervisor) → Returns Reported (on_supervisor s (sup_status env))
  status-Reported s = record {
    at = λ p.
        let s' : Supervised W = record { supervisor = s; world = p.world } in
        go (sup_status env s').0
          ((status-Returns env.chars env.shell env.processes env.sockets env.codec).at s');
  }
    where
      go : (r : Outcome DatapathProcessStatus) → Holds IsReport r → Holds Reported r
      go (ok a) h = λ _. h
      go (raised e) h = tt

  unmanaged-Reported : (r : ControllerRuntime) → Reported (unmanaged_datapath_status r)
  unmanaged-Reported r h = cc h

  current-Reported : Returns Reported (current_datapath_status env)
  unfolding current_datapath_status
  current-Reported = record {
    at = λ p.
        (Returns-if p.runtime.started
            (on_option p.runtime.supervisor (pure (unmanaged_datapath_status p.runtime))
              (λ s. on_supervisor s (sup_status env)))
            (pure (unmanaged_datapath_status p.runtime))
            (Returns-on_option p.runtime.supervisor (pure (unmanaged_datapath_status p.runtime))
              (λ s. on_supervisor s (sup_status env))
              (Returns-pure (unmanaged_datapath_status p.runtime) (unmanaged-Reported p.runtime))
              status-Reported)
            (Returns-pure (unmanaged_datapath_status p.runtime) (unmanaged-Reported p.runtime))).at
          p;
  }

  health_snapshot-Reported : Returns (λ h. Reported h.datapath_status) (health_snapshot env)
  unfolding health_snapshot
  health_snapshot-Reported =
      Returns-step Reported (current_datapath_status env) _ current-Reported λ status reported.
        Returns-bind runtime _ λ r.
          Returns-bind
            (if r.started && is_some r.supervisor
              then observe_again env status >> recompute status
              else pure tt)
            _ λ _. Returns-bind runtime _ λ r'. Returns-pure (snapshot env status r') reported

-- What a client may conclude from a reachable datapath.
pub record IsConsistent (m : DatapathHealthModel) : Type 0 where
  pub has_pid : is_some m.pid ≡ true
  pub no_exit_code : m.exit_code ≡ none
  pub no_error : m.last_error ≡ none
  pub has_version :
      (is_some m.service ≡ true) × (is_some m.version ≡ true) × (is_some m.dpdk_version ≡ true)
  pub has_state : is_some m.state ≡ true
  pub has_rule_version : is_some m.applied_rule_version ≡ true

is_some-on_option :
    {X Y : Type 0} (f : X → Y) (o : Option X)
    → is_some (on_option o none (λ x. some (f x))) ≡ is_some o
is_some-on_option f none = refl
is_some-on_option f (some x) = refl

fields-IsConsistent :
    (s : DatapathProcessStatus)
    → s.reachable ≡ true
    → IsReport s
    → IsConsistent (datapath_health_fields s)
fields-IsConsistent s h r = record {
  has_pid = sym r.has_pid ∙ r.runs h;
  no_exit_code = r.no_exit_code (r.runs h);
  no_error = r.no_error h;
  has_version = (
    is_some-on_option (λ v. v.service) s.version ∙ r.has_version h,
    is_some-on_option (λ v. v.version) s.version ∙ r.has_version h,
    is_some-on_option (λ v. v.dpdk_version) s.version ∙ r.has_version h,
  );
  has_state = is_some-on_option (λ v. v.state) s.health ∙ r.has_health h;
  has_rule_version = is_some-on_option (λ v. v.applied_rule_version) s.health ∙ r.has_health h;
}

constructed-ok :
    {M : Type 0} (name : String) (b : Bool) (m m' : M) → constructed name b m ≡ ok m' → m ≡ m'
constructed-ok name true m m' h = cc h
constructed-ok name false m m' h = cc h

both-made :
    (a : Outcome ControllerHealthModel) (b : Outcome DatapathHealthModel) (m : HealthResponseModel)
    → and_then a (λ c. and_then b λ d. ok (record { controller = c; datapath = d })) ≡ ok m
    → b ≡ ok m.datapath
both-made (ok c) (ok d) m h = cc h
both-made (ok c) (raised e) m h = cc h
both-made (raised e) b m h = cc h

health_response-datapath :
    (h : ControllerHealthSnapshot) (m : HealthResponseModel)
    → health_response h ≡ ok m
    → m.datapath ≡ datapath_health_fields h.datapath_status
unfolding health_response datapath_health_model_from_status
health_response-datapath h m e =
    let made = both-made _ (datapath_health_model_from_status h.datapath_status) m e in
    sym (
      constructed-ok "DatapathHealthModel"
        (fits_datapath_health (datapath_health_fields h.datapath_status))
        (datapath_health_fields h.datapath_status) m.datapath made)

-- A health response of which a reachable datapath is consistent.
abbrev pub IsTrue : Reply HealthResponseModel → Type 0
IsTrue (answer m) = m.datapath.reachable ≡ true → IsConsistent m.datapath
IsTrue _ = Unit

finished-IsTrue :
    (h : ControllerHealthSnapshot) (r : Outcome HealthResponseModel)
    → health_response h ≡ r
    → Reported h.datapath_status
    → IsTrue (finished r)
finished-IsTrue h (ok m) e reported = λ reachable.
    let same = health_response-datapath h m e in
    let reached : h.datapath_status.reachable ≡ true = rw same at reachable in
    rw same (fields-IsConsistent h.datapath_status reached (reported reached))
finished-IsTrue h (raised x) e reported = tt

health_reply-IsTrue :
    (r : Outcome ControllerHealthSnapshot)
    → Holds (λ h. Reported h.datapath_status) r
    → IsTrue (health_reply health_response r)
health_reply-IsTrue (ok h) reported = finished-IsTrue h (health_response h) refl reported
health_reply-IsTrue (raised e) reported = tt

reply-IsTrue :
    {W : Type 0} (env : Env W) (s : Managed (Plant W))
    → IsTrue (health_reply health_response (health_snapshot env s.plant).0)
reply-IsTrue env s =
    health_reply-IsTrue (health_snapshot env s.plant).0 ((health_snapshot-Reported env).at s.plant)

-- Whenever `/health` answers that the datapath is reachable, the answer has a process id, the
-- versions, the state and the rule version of the datapath, and no exit code and no error.
pub get_health-IsTrue :
    {W : Type 0} (env : Env W) (s s' : Managed (Plant W)) (m : HealthResponseModel)
    → serve env get_health s ≡ (health_body (answer m), s')
    → m.datapath.reachable ≡ true
    → IsConsistent m.datapath
unfolding serve
get_health-IsTrue env s s' m e =
    let same : health_reply health_response (health_snapshot env s.plant).0 ≡ answer m = cc e in
    subst IsTrue same (reply-IsTrue env s)
