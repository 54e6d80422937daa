-- ===== src/Topology/Manager/Frame.antt =====
-- The manager changes the plant only by commands, the clock and its callbacks: a property that these
-- keep is kept by `apply` and `destroy`, whether they return or raise.
use pktlab.Base.{String, none, List, [], ◌∷◌, CharTable}
use pktlab.Error.{Exn, typed, PktlabError}
use pktlab.Effect.{Action, pure, lift, catch, ◌>>◌}
use pktlab.Effect.Keeps.{
  Keeps, Keeps-pure, Keeps-raise, Keeps-lift, Keeps-if, Keeps-catch, Keeps-bind, Keeps-on_option,
}
use pktlab.Config.{ValidatedTopologyConfig}
use pktlab.Util.{Shell}
use pktlab.Topology.Frame.{
  ShellKeeps, ensure_namespaces-Keeps, destroy_namespaces-Keeps, ensure_links-Keeps,
  ensure_bridges-Keeps, bring_link_endpoints_up-Keeps, destroy_links_and_bridges-Keeps,
  ensure_routes-Keeps, reconcile_taps-Keeps,
}
use pktlab.Topology.Manager.{
  Managed, ManagerConfig, keep_error, typed_only, on_plant, set_current, stop_of, start_of,
  stop_datapath_locked, raise_errors, destroy_locked, cleanup_failed_apply, start_datapath_locked,
  set_up, roll_back, drop_current, prepare, apply, destroy, nothing_applied, destroyed,
}

-- The callbacks and the loader keep a property of the plant.
pub record CallbacksKeep {V : Type 0} (P : V → Type 0) (config : ManagerConfig V) : Type 0 where
  pub loading : (path : String) → Keeps P (config.load_topology path)
  pub starting : (v : ValidatedTopologyConfig) → Keeps P (start_of config v)
  pub stopping : Keeps P (stop_of config)

keep_error-Keeps :
    {V : Type 0} {P : V → Type 0} (errors : List PktlabError) (e : Exn)
    → Keeps P (keep_error errors e)
keep_error-Keeps errors (typed e) = Keeps-pure _
keep_error-Keeps errors _ = Keeps-raise _

typed_only-Keeps : {V : Type 0} {P : V → Type 0} (e : Exn) → Keeps P (typed_only e)
typed_only-Keeps (typed e) = Keeps-pure _
typed_only-Keeps _ = Keeps-raise _

ruleset rules = (
  Keeps-pure, Keeps-raise, Keeps-lift, Keeps-if, Keeps-catch, Keeps-bind, keep_error-Keeps,
  typed_only-Keeps,
)

module _ {V : Type 0} (P : V → Type 0) (t : CharTable) (shell : Shell V) (config : ManagerConfig V)
    (k : ShellKeeps P shell) (c : CallbacksKeep P config) where
  raise_errors-Keeps :
      (v : ValidatedTopologyConfig) (errors : List PktlabError)
      → Keeps P (raise_errors t shell config v errors)
  raise_errors-Keeps v [] = Keeps-pure _
  raise_errors-Keeps v (e ∷ rest) = Keeps-raise _

  stop_datapath_locked-Keeps : Keeps P (stop_datapath_locked t shell config)
  unfolding stop_datapath_locked
  stop_datapath_locked-Keeps = c.stopping

  destroy_locked-Keeps : (v : ValidatedTopologyConfig) → Keeps P (destroy_locked t shell config v)
  unfolding destroy_locked
  destroy_locked-Keeps v =
      let stopping = stop_datapath_locked-Keeps in
      let links = destroy_links_and_bridges-Keeps P t shell k v in
      let namespaces = destroy_namespaces-Keeps P t shell k v in
      search (rules, raise_errors-Keeps) depth 20

  cleanup_failed_apply-Keeps :
      (v : ValidatedTopologyConfig) → Keeps P (cleanup_failed_apply t shell config v)
  unfolding cleanup_failed_apply
  cleanup_failed_apply-Keeps v = search (rules, destroy_locked-Keeps) depth 20

  start_datapath_locked-Keeps :
      (v : ValidatedTopologyConfig) → Keeps P (start_datapath_locked t shell config v)
  unfolding start_datapath_locked
  start_datapath_locked-Keeps v = c.starting v

  set_up-Keeps : (v : ValidatedTopologyConfig) → Keeps P (set_up t shell config v)
  unfolding set_up
  set_up-Keeps v =
      let a = ensure_namespaces-Keeps P t shell k v in
      let b = ensure_links-Keeps P t shell k v in
      let d = ensure_bridges-Keeps P t shell k v in
      let e = start_datapath_locked-Keeps v in
      let f =
        reconcile_taps-Keeps P t shell k config.tap_timeout_seconds config.tap_poll_interval_seconds
          v in
      let g = bring_link_endpoints_up-Keeps P t shell k v in
      let h = ensure_routes-Keeps P t shell k v in search rules depth 20

  roll_back-Keeps :
      (path : String) (v : ValidatedTopologyConfig) (e : Exn)
      → Keeps P (roll_back t shell config path v e)
  unfolding roll_back
  roll_back-Keeps path v e = search (rules, cleanup_failed_apply-Keeps) depth 20

  prepare-Keeps : (path : String) → Keeps P (prepare t shell config path)
  unfolding prepare
  prepare-Keeps path =
      let l = c.loading path in
      Keeps-bind (config.load_topology path) (λ loaded. lift (config.validate_topology loaded)) l
        (λ loaded. Keeps-lift (config.validate_topology loaded))

module _ {V A : Type 0} (P : V → Type 0) where
  on_plant-Keeps : (m : Action V A) → Keeps P m → Keeps (λ (s : Managed V). P s.plant) (on_plant m)
  on_plant-Keeps m k = record { at = λ s h. k.at s.plant h }

module _ {V : Type 0} (P : V → Type 0) (t : CharTable) (shell : Shell V) (config : ManagerConfig V)
    (k : ShellKeeps P shell) (c : CallbacksKeep P config) where
  abbrev PlantHolds : Managed V → Type 0
  PlantHolds s = P s.plant

  drop_current-Keeps : Keeps PlantHolds (drop_current t shell config)
  unfolding drop_current
  drop_current-Keeps = record {
    at = λ s h.
        (Keeps-on_option {P = PlantHolds} s.current (pure tt)
            (λ applied.
              on_plant (destroy_locked t shell config applied.validated) >> set_current none)
            (Keeps-pure tt)
            (λ applied.
              let d = destroy_locked-Keeps P t shell config k c applied.validated in
              search (rules, on_plant-Keeps) depth 20)).at
          s h;
  }

  install-Keeps :
      (path : String) (v : ValidatedTopologyConfig)
      → Keeps P (catch (set_up t shell config v) (roll_back t shell config path v))
  install-Keeps path v =
      Keeps-catch (set_up t shell config v) (roll_back t shell config path v)
        (set_up-Keeps P t shell config k c v) (λ e. roll_back-Keeps P t shell config k c path v e)

  -- Applying a topology keeps what the shell and the callbacks keep.
  pub apply-Keeps : (path : String) → Keeps PlantHolds (apply t shell config path)
  unfolding apply
  apply-Keeps path =
      let a =
        on_plant-Keeps P (prepare t shell config path) (prepare-Keeps P t shell config k c path) in
      Keeps-bind (on_plant (prepare t shell config path)) _ a (λ v.
        let b = on_plant-Keeps P _ (install-Keeps path v) in
        Keeps-bind (drop_current t shell config) _ drop_current-Keeps (λ _. search rules depth 20))

  -- So does destroying it.
  pub destroy-Keeps : Keeps PlantHolds (destroy t shell config)
  unfolding destroy
  destroy-Keeps = record {
    at = λ s h.
        (Keeps-on_option {P = PlantHolds} s.current (pure nothing_applied)
            (λ applied.
              on_plant (destroy_locked t shell config applied.validated)
              >> (set_current none >> pure (destroyed applied)))
            (Keeps-pure nothing_applied)
            (λ applied.
              let d = destroy_locked-Keeps P t shell config k c applied.validated in
              search (rules, on_plant-Keeps) depth 20)).at
          s h;
  }
