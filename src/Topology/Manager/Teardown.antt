-- ===== src/Topology/Manager/Teardown.antt =====
-- Teardown of a topology: `_destroy_locked` and `destroy` of
-- ctrld/pktlab_ctrld/topology/manager.py.
use pktlab.Base.{◌≡◌, refl, ◌≢◌, false, Option, none, some, List, [], ◌∷◌, ◌++◌, arith, CharTable}
use mathlib.Core.List.{append-nil}
use pktlab.Error.{
  PktlabError, typed, value_error, runtime_error, invalid_model, timeout_expired, file_not_found,
  connection_refused, socket_timeout, os_error, other,
}
use pktlab.Effect.{Outcome, ok, raised, pure, handle, continue, ◌>>◌}
use pktlab.Effect.Triple.{Post}
use pktlab.Config.{ValidatedTopologyConfig}
use pktlab.Util.{Shell}
use pktlab.Topology.{destroy_links_and_bridges, destroy_namespaces}
use pktlab.Topology.Manager.{
  Managed, ManagerConfig, TopologyOperationResult, AppliedTopology, keep_error, set_current,
  stop_datapath_locked, destroy_locked, destroy_failed, destroy, destroyed, raise_errors,
}

-- A stage that returns or raises a typed error.
abbrev pub IsTyped {ℓ} : {A : Type ℓ} → Outcome A → Type 0
IsTyped (ok _) = Unit
IsTyped (raised (typed _)) = Unit
IsTyped (raised _) = ⊥

abbrev pub errors_of : Outcome (Unit {0}) → List PktlabError
errors_of (ok _) = []
errors_of (raised (typed e)) = e ∷ []
errors_of (raised _) = []

-- How a teardown ends, given the errors of its stages.
abbrev pub teardown_outcome : ValidatedTopologyConfig → List PktlabError → Outcome (Unit {0})
teardown_outcome v [] = ok tt
teardown_outcome v (e ∷ rest) = raised (typed (destroy_failed v (e ∷ rest)))

attempt_typed :
    {V : Type 0} (errors : List PktlabError) (r : Outcome (Unit {0}) × V)
    → IsTyped r.0
    → handle (keep_error errors) (continue (λ _. pure errors) r)
      ≡ (ok (errors ++ errors_of r.0), r.1)
attempt_typed errors (ok x, w) h = ground (arith, append-nil errors)
attempt_typed errors (raised (typed e), w) h = refl
attempt_typed errors (raised (value_error _), w) h = absurd h
attempt_typed errors (raised (runtime_error _), w) h = absurd h
attempt_typed errors (raised (invalid_model _), w) h = absurd h
attempt_typed errors (raised timeout_expired, w) h = absurd h
attempt_typed errors (raised file_not_found, w) h = absurd h
attempt_typed errors (raised connection_refused, w) h = absurd h
attempt_typed errors (raised socket_timeout, w) h = absurd h
attempt_typed errors (raised (os_error _), w) h = absurd h
attempt_typed errors (raised (other _), w) h = absurd h

module _ {V : Type 0} (t : CharTable) (shell : Shell V) (config : ManagerConfig V) where
  raise_errors-outcome :
      (v : ValidatedTopologyConfig) (errors : List PktlabError) (w : V)
      → raise_errors t shell config v errors w ≡ (teardown_outcome v errors, w)
  raise_errors-outcome v [] w = refl
  raise_errors-outcome v (e ∷ rest) w = refl

  -- If each stage returns or raises a typed error, the teardown goes through all three: the
  -- datapath is stopped, then the links and bridges are deleted, then the namespaces. Their errors,
  -- in this order, are what it raises, and it succeeds if there is none.
  pub destroy_locked_attempts_all :
      (v : ValidatedTopologyConfig) (w : V)
      → let stopping = stop_datapath_locked t shell config w in
        let links = destroy_links_and_bridges t shell v stopping.1 in
        let namespaces = destroy_namespaces t shell v links.1 in
        IsTyped stopping.0
        → IsTyped links.0
        → IsTyped namespaces.0
        → destroy_locked t shell config v w ≡ (
          teardown_outcome v
              ((errors_of stopping.0 ++ errors_of links.0) ++ errors_of namespaces.0),
          namespaces.1,
        )
  unfolding destroy_locked
  destroy_locked_attempts_all v w a b c =
      let stopping = stop_datapath_locked t shell config w in
      let links = destroy_links_and_bridges t shell v stopping.1 in
      let namespaces = destroy_namespaces t shell v links.1 in
      rw (attempt_typed [] stopping a) (
        rw (attempt_typed (errors_of stopping.0) links b) (
          rw (attempt_typed (errors_of stopping.0 ++ errors_of links.0) namespaces c) (
            raise_errors-outcome v
              ((errors_of stopping.0 ++ errors_of links.0) ++ errors_of namespaces.0)
              namespaces.1)))

  -- What `destroy` leaves: on return no topology, on an exception the one that was there.
  abbrev pub AfterDestroy :
      Option AppliedTopology → Outcome TopologyOperationResult × Managed V → Type 0
  AfterDestroy before r =
      Post (λ x s'. (s'.current ≡ none) × (x.applied ≡ false) × (x.datapath_running ≡ false))
        (λ e s'. (s'.current ≡ before) × (before ≢ none)) r

  destroy_applied :
      (applied : AppliedTopology) (r : Outcome (Unit {0}) × V)
      → AfterDestroy (some applied) (
          continue
            (λ _. set_current none >> pure (destroyed applied))
            (r.0, record { current = some applied; plant = r.1 }))
  destroy_applied applied (ok x, w) = (refl, refl, refl)
  destroy_applied applied (raised x, w) = (refl, λ n. cc)

  destroy_at :
      (before : Option AppliedTopology) (w : V)
      → AfterDestroy before (destroy t shell config (record { current = before; plant = w }))
  unfolding destroy
  destroy_at none w = (refl, refl, refl)
  destroy_at (some applied) w =
      destroy_applied applied (destroy_locked t shell config applied.validated w)

  -- `destroy` forgets the topology exactly when it returns: a failed teardown leaves the topology
  -- recorded as applied, and there was one.
  pub destroy-current : (s : Managed V) → AfterDestroy s.current (destroy t shell config s)
  destroy-current s = destroy_at s.current s.plant
