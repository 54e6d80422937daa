-- ===== src/Api/Lifespan.antt =====
-- The life of the application: requests leave the controller started, so that its end stops it.
use pktlab.Base.{
  ◌≡◌, refl, ◌∙◌, true, false, Option, none, List, [], ◌∷◌, Bool-cases, ◌⊎◌, inl, inr, is_blank,
}
use pktlab.Effect.{Outcome, ok, raised}
use pktlab.Effect.Triple.{Post}
use pktlab.Controller.Runtime.Starting.{IsStarted, IsUnstarted, start-IsStarted}
use pktlab.Topology.Manager.{AppliedTopology, Managed, TopologyOperationResult}
use pktlab.Controller.{ControllerRuntime, Plant, Env}
use pktlab.Controller.Runtime.{start, stop, apply_topology, destroy_topology}
use pktlab.Controller.Runtime.Destroying.{IsLive, IsCleared, destroy_topology-IsCleared}
use pktlab.Controller.Runtime.Applying.{Finishes, apply_topology-IsApplied}
use pktlab.Controller.Runtime.Ending.{IsShutDown, IsStopping, stop-IsShutDown}
use pktlab.Api.Live.{
  health_snapshot-Keeps, status_snapshot-Keeps, stats_snapshot-Keeps, reset-Keeps, pause-Keeps,
  resume-Keeps,
}
use pktlab.State.{ControllerStateValue}
use pktlab.Base.{String}
use pktlab.Api.{
  Request, get_health, get_datapath_status, get_datapath_stats, reset_stats_request, pause_request,
  resume_request, destroy_request, apply_request, Response, serve, serve_all, run_and_stop,
  lifespan,
}

module _ {W : Type 0} (env : Env W) where
  destroyed-IsLive :
      (r : ControllerRuntime) (x : Outcome TopologyOperationResult × Managed (Plant W))
      → Post (λ _ s'. (s'.current ≡ none) × IsCleared r s'.plant) (λ _ s'. IsLive r s'.plant) x
      → IsLive r x.1.plant
  destroyed-IsLive r (ok _, s) h = record { live = h.1.same_started }
  destroyed-IsLive r (raised e, s) h = h

  applied-IsLive :
      (r : ControllerRuntime) (path : String)
      (x : Outcome TopologyOperationResult × Managed (Plant W))
      → Finishes env r path x
      → IsLive r x.1.plant
  applied-IsLive r path (ok _, s) h = record { live = h.2.same_started }
  applied-IsLive r path (raised e, s) h = h

  refused-IsLive :
      (path : String) (s : Managed (Plant W))
      → is_blank env.chars path ≡ true
      → IsLive s.plant.runtime (apply_topology env path s).1.plant
  unfolding apply_topology
  refused-IsLive path s blank = rw blank (record { live = refl })

  apply_topology-IsLive :
      (path : String) (s : Managed (Plant W))
      → IsLive s.plant.runtime (apply_topology env path s).1.plant
  apply_topology-IsLive path s = elim (Bool-cases (is_blank env.chars path)) [
    | inl blank ↦ refused-IsLive path s blank
    | inr given ↦
        applied-IsLive s.plant.runtime path (apply_topology env path s)
          (apply_topology-IsApplied env path s given)
  ]

  -- A request leaves the controller started exactly if it was before.
  serve-live :
      (request : Request) (s : Managed (Plant W))
      → (serve env request s).1.plant.runtime.started ≡ s.plant.runtime.started
  unfolding serve
  serve-live get_health s =
      ((health_snapshot-Keeps env s.plant.runtime).at s.plant (record { live = refl })).live
  serve-live get_datapath_status s =
      ((status_snapshot-Keeps env s.plant.runtime).at s.plant (record { live = refl })).live
  serve-live get_datapath_stats s =
      ((stats_snapshot-Keeps env s.plant.runtime).at s.plant (record { live = refl })).live
  serve-live reset_stats_request s =
      ((reset-Keeps env s.plant.runtime).at s.plant (record { live = refl })).live
  serve-live pause_request s =
      ((pause-Keeps env s.plant.runtime).at s.plant (record { live = refl })).live
  serve-live resume_request s =
      ((resume-Keeps env s.plant.runtime).at s.plant (record { live = refl })).live
  serve-live destroy_request s =
      (destroyed-IsLive s.plant.runtime (destroy_topology env s)
        (destroy_topology-IsCleared env s)).live
  serve-live (apply_request payload) s = (apply_topology-IsLive payload.config_path s).live

  serve_all-live :
      (requests : List Request) (s : Managed (Plant W))
      → (serve_all env requests s).1.plant.runtime.started ≡ s.plant.runtime.started
  unfolding serve_all
  serve_all-live [] s = refl
  serve_all-live (request ∷ rest) s =
      serve_all-live rest (serve env request s).1 ∙ serve-live request s

  -- How the application ends: the controller stopped, or a start or a stop that has raised.
  abbrev pub Ends : Outcome (List Response) × Managed (Plant W) → Type 0
  Ends x =
      Post (λ _ s'. IsShutDown s')
        (λ _ s'.
          ((s'.plant.runtime.started ≡ false)
            × (s'.plant.runtime.controller_state ≡ ControllerStateValue.starting))
          ⊎ ((s'.plant.runtime.started ≡ true)
              × (s'.plant.runtime.controller_state ≡ ControllerStateValue.stopping)))
        x

  stopped-Ends :
      (responses : List Response) (before : Managed (Plant W))
      → before.plant.runtime.started ≡ true
      → (x : Outcome (Unit {0}) × Managed (Plant W))
      → Post {A = Unit} (λ _ s'. IsShutDown s') (λ _ s'. IsStopping before.plant.runtime s') x
      → Ends (elim x.0 [ ok _ ↦ ok responses | raised e ↦ raised e ], x.1)
  stopped-Ends responses before k (ok _, s') down = down
  stopped-Ends responses before k (raised e, s') failing =
      inr (failing.still_started ∙ k, failing.stopping)

  run_and_stop-Ends :
      (requests : List Request) (s : Managed (Plant W))
      → s.plant.runtime.started ≡ true
      → Ends (run_and_stop env requests s)
  unfolding run_and_stop
  run_and_stop-Ends requests s h =
      let served = (serve_all env requests s).1 in
      let started = serve_all-live requests s ∙ h in
      stopped-Ends (serve_all env requests s).0 served started (stop env served)
        (stop-IsShutDown env served started)

  started-Ends :
      (requests : List Request) (before : ControllerRuntime) (current : Option AppliedTopology)
      → before.started ≡ false
      → (x : Outcome (Unit {0}) × Plant W)
      → Post {A = Unit} (λ _ p'. IsStarted before p') (λ _ p'. IsUnstarted before p') x
      → Ends (elim x.0 [
        | raised e ↦ (raised e, record { current = current; plant = x.1 })
        | ok _ ↦ run_and_stop env requests (record { current = current; plant = x.1 })
      ])
  started-Ends requests before current h (ok _, p) up =
      run_and_stop-Ends requests (record { current = current; plant = p }) up.started
  started-Ends requests before current h (raised e, p) failing =
      inl (failing.still ∙ h, failing.starting)

  -- The application of a controller that is not started ends, whatever the requests were and
  -- however they were answered, with the controller stopped, no topology recorded and nothing
  -- desired; or else its start has raised and left it unstarted in the state "starting", or its stop
  -- has raised and left it started in the state "stopping".
  pub lifespan-IsShutDown :
      (requests : List Request) (s : Managed (Plant W))
      → s.plant.runtime.started ≡ false
      → Ends (lifespan env requests s)
  unfolding lifespan
  lifespan-IsShutDown requests s h =
      started-Ends requests s.plant.runtime s.current h (start env s.plant)
        (start-IsStarted env s.plant h)
