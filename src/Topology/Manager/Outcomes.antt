-- ===== src/Topology/Manager/Outcomes.antt =====
-- The outcomes of `apply` of ctrld/pktlab_ctrld/topology/manager.py.
use pktlab.Base.{
  String, ◌≡◌, refl, ◌⊎◌, inl, inr, true, Option, none, some, arith, CharTable, str_eq, eq_iff,
  if◌then◌else◌, ap,
}
use pktlab.Error.{
  ErrorCode, Value, Context, end, entry, get_entry, set_entry, to_dict, PktlabError, Exn, typed,
  topology_apply_error,
}
use pktlab.Effect.{Outcome, ok, raised, Action, pure, handle, catch, continue, ◌>>=◌, ◌>>◌}
use pktlab.Effect.Triple.{Post}
use pktlab.Config.{ValidatedTopologyConfig}
use pktlab.Util.{Shell}
use pktlab.Process.{DatapathProcessStatus}
use pktlab.Topology.Manager.{
  Managed, ManagerConfig, TopologyOperationResult, AppliedTopology, on_plant, set_current, result,
  destroy_locked, merge_cleanup_error, cleanup_failed_apply, set_up, apply_failure, roll_back,
  drop_current, prepare, apply, apply_operation,
}

get-set_entry :
    (k j : String) (v : Value) (c : Context)
    → get_entry j (set_entry k v c) ≡ (if str_eq k j then some v else get_entry j c)
unfolding get_entry set_entry
get-set_entry k j v end = refl
get-set_entry k j v (entry i w c) =
    ground (arith, eq_iff k j, eq_iff i k, eq_iff i j, get-set_entry k j v c)

-- Merging a cleanup error into the error of a failed apply keeps the code, the message and every
-- other entry of the context, and puts the cleanup error under the key "cleanup_error".
pub merge_cleanup_error_keeps :
    (e cleanup : PktlabError) (k : String)
    → ((merge_cleanup_error e cleanup).code ≡ e.code)
      × ((merge_cleanup_error e cleanup).message ≡ e.message)
      × (get_entry k (merge_cleanup_error e cleanup).context
          ≡ (if str_eq "cleanup_error" k then some (to_dict cleanup) else get_entry k e.context))
unfolding merge_cleanup_error
merge_cleanup_error_keeps e cleanup k =
    (refl, refl, get-set_entry "cleanup_error" k (to_dict cleanup) e.context)

-- The code that a failed setup is reported with.
abbrev pub expected_code : Exn → ErrorCode
expected_code (typed e) = e.code
expected_code _ = topology_apply_error

module _ {V : Type 0} (t : CharTable) (shell : Shell V) (config : ManagerConfig V) where
  -- What `apply` leaves of the manager's topology.
  abbrev pub AfterApply : String → Managed V → Outcome TopologyOperationResult × Managed V → Type 0
  AfterApply path s r =
      Post
        (λ x s'.
          (v : ValidatedTopologyConfig) × ((prepare t shell config path s.plant).0 ≡ ok v)
          × (s'.current ≡ some (record { config_path = path; validated = v }))
          × (x.applied ≡ true)
          × (x.config_path ≡ some path)
          × (x.topology_name ≡ some v.topology.lab.name))
        (λ e s'. (s'.current ≡ s.current) ⊎ (s'.current ≡ none)) r

  after_set_up :
      (path : String) (s : Managed V) (v : ValidatedTopologyConfig)
      (r : Outcome DatapathProcessStatus × V)
      → (prepare t shell config path s.plant).0 ≡ ok v
      → AfterApply path s (
          continue
            (λ (status : DatapathProcessStatus).
              set_current (some (record { config_path = path; validated = v }))
              >> pure (result apply_operation v path true status.running "topology applied"))
            (r.0, record { current = none; plant = r.1 }))
  after_set_up path s v (ok status, w) loaded = (v, loaded, refl, refl, refl, refl)
  after_set_up path s v (raised e, w) loaded = inr refl

  abbrev pub rest_of_apply :
      String → ValidatedTopologyConfig → Action (Managed V) TopologyOperationResult
  rest_of_apply path v =
      on_plant (catch (set_up t shell config v) (roll_back t shell config path v)) >>= λ status.
      set_current (some (record { config_path = path; validated = v }))
      >> pure (result apply_operation v path true status.running "topology applied")

  after_drop :
      (path : String) (old : AppliedTopology) (p : V) (v : ValidatedTopologyConfig)
      (r : Outcome (Unit {0}) × V)
      → (prepare t shell config path p).0 ≡ ok v
      → AfterApply path
          (record { current = some old; plant = p })
          (continue
            (λ _. rest_of_apply path v)
            (continue (λ _. set_current none) (r.0, record { current = some old; plant = r.1 })))
  after_drop path old p v (ok x, w) loaded =
      after_set_up path (record { current = some old; plant = p }) v
        (handle (roll_back t shell config path v) (set_up t shell config v w)) loaded
  after_drop path old p v (raised e, w) loaded = inl refl

  after_prepare :
      (path : String) (before : Option AppliedTopology) (p : V)
      (r : Outcome ValidatedTopologyConfig × V)
      → prepare t shell config path p ≡ r
      → AfterApply path
          (record { current = before; plant = p })
          (continue
            (λ v. drop_current t shell config >> rest_of_apply path v)
            (r.0, record { current = before; plant = r.1 }))
  unfolding drop_current
  after_prepare path before p (raised e, w) loaded = inl refl
  after_prepare path none p (ok v, w) loaded =
      after_set_up path (record { current = none; plant = p }) v
        (handle (roll_back t shell config path v) (set_up t shell config v w))
        (ap (λ x. x.0) loaded)
  after_prepare path (some old) p (ok v, w) loaded =
      after_drop path old p v (destroy_locked t shell config old.validated w) (ap (λ x. x.0) loaded)

  -- When `apply` returns, the topology that was loaded from the file and validated is recorded under
  -- the file's path, and the result names both. When it raises, either the topology from before is
  -- still recorded or none is: never the one that could not be set up.
  pub apply-current :
      (path : String) (s : Managed V) → AfterApply path s (apply t shell config path s)
  unfolding apply
  apply-current path s =
      after_prepare path s.current s.plant (prepare t shell config path s.plant) refl

  -- A file that cannot be loaded or is not valid changes nothing but the world of the loader: no
  -- command is run and the old topology stays applied.
  pub apply_rejects_early :
      (path : String) (s : Managed V) (e : Exn) (w : V)
      → prepare t shell config path s.plant ≡ (raised e, w)
      → apply t shell config path s ≡ (raised e, record s { plant = w })
  unfolding apply
  apply_rejects_early path s e w h = rw h

  apply_failure-code :
      (path : String) (v : ValidatedTopologyConfig) (e : Exn) (cleanup : Option PktlabError)
      → (x : PktlabError) × (apply_failure t shell config path v e cleanup ≡ typed x)
        × (x.code ≡ expected_code e)
  unfolding apply_failure merge_cleanup_error
  apply_failure-code path v (typed e) none = (e, refl, refl)
  apply_failure-code path v (typed e) (some cleanup) = (_, refl, refl)
  apply_failure-code path v _ none = (_, refl, refl)
  apply_failure-code path v _ (some cleanup) = (_, refl, refl)

  -- With no topology applied, when setting one up raises and the cleanup ends without an untyped
  -- exception, then the cleanup of the same topology has been carried out in the state in which the
  -- setup stopped, no topology is recorded, and `apply` raises a typed error: with the code of the
  -- cause if that is typed, else as a topology apply error.
  pub apply_rolls_back :
      (path : String) (p w0 w w' : V) (v : ValidatedTopologyConfig) (e : Exn)
      (cleanup : Option PktlabError)
      → prepare t shell config path p ≡ (ok v, w0)
      → set_up t shell config v w0 ≡ (raised e, w)
      → cleanup_failed_apply t shell config v w ≡ (ok cleanup, w')
      → (x : PktlabError) × (apply t shell config path (record { current = none; plant = p })
          ≡ (raised (typed x), record { current = none; plant = w' }))
        × (x.code ≡ expected_code e)
  unfolding apply drop_current roll_back
  apply_rolls_back path p w0 w w' v e cleanup a b c =
      let (x, same, code) = apply_failure-code path v e cleanup in (x, rw (a, b, c, same), code)
