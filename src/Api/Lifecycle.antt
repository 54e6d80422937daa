-- ===== src/Api/Lifecycle.antt =====
-- The topology that is applied, as the requests change it: an abstract machine that the routes refine.
use pktlab.Base.{
  ◌≡◌, refl, sym, Option, none, some, on_option, List, [], ◌∷◌, String, ◌⊎◌, inl, inr, true,
  Bool-cases, is_blank,
}
use mathlib.Core.Path.{subst}
use pktlab.Error.{Exn, typed, value_error}
use pktlab.Effect.{Outcome, ok, raised}
use pktlab.Effect.Triple.{Post}
use pktlab.Effect.Keeps.{Keeps, Keeps-pure, Keeps-raise, Keeps-if, Keeps-bind, Keeps-catch}
use pktlab.Topology.Manager.{Managed, AppliedTopology, TopologyOperationResult, on_plant}
use pktlab.Topology.Manager.Outcomes.{AfterApply, apply-current}
use pktlab.Topology.Manager.Teardown.{AfterDestroy, destroy-current}
use pktlab.Config.{ValidatedTopologyConfig}
use pktlab.Controller.{Plant, Env}
use pktlab.Controller.Parts.{
  OnPlant, plant_shell, manager_config, manager_apply, manager_destroy, has_applied_topology,
}
use pktlab.Controller.Runtime.{apply_topology, destroy_topology}
use pktlab.Controller.Runtime.Destroying.{IsCleared, IsLive, destroy_topology-IsCleared}
use pktlab.Controller.Runtime.Applying.{Finishes, apply_topology-IsApplied}
use pktlab.Api.{
  Request, get_health, get_datapath_status, get_datapath_stats, reset_stats_request, pause_request,
  resume_request, destroy_request, apply_request, serve, serve_all, Response, topology_body, reply,
  answer, topology_http_status,
}
use pktlab.Api.Models.{TopologyApplyRequestModel, topology_response}

-- The requests after which no topology may be left.
abbrev pub Changes : Request → Type 0
Changes destroy_request = Unit
Changes (apply_request payload) = Unit
Changes _ = ⊥

-- The answer is none: the route ends in an exception of HTTP or another one.
abbrev pub IsRefusal : Response → Type 0
IsRefusal (topology_body (answer m)) = ⊥
IsRefusal _ = Unit

-- A request with its answer keeps the applied configuration, clears it, or installs the one that it
-- names. To destroy with an answer is to clear, and to apply with an answer is to install.
pub data Step : Option String → Request → Response → Option String → Type 0 where
  kept : {c : Option String} {r : Request} {a : Response} → (Changes r → IsRefusal a) → Step c r a c
  lost :
      {c : Option String} {r : Request} {a : Response} → Changes r → IsRefusal a → Step c r a none
  cleared : {c : Option String} {a : Response} → Step c destroy_request a none
  installed :
      {c : Option String} {a : Response} {payload : TopologyApplyRequestModel}
      → Step c (apply_request payload) a (some payload.config_path)

-- Requests with their answers, one after the other.
pub data Run : Option String → List Request → List Response → Option String → Type 0 where
  done : {c : Option String} → Run c [] [] c
  next :
      {c c' c'' : Option String} {r : Request} {a : Response} {rest : List Request}
      {answers : List Response}
      → Step c r a c'
      → Run c' rest answers c''
      → Run c (r ∷ rest) (a ∷ answers) c''

-- The configuration that is applied.
abbrev pub applied_path : Option AppliedTopology → Option String
applied_path current = on_option current none (λ a. some a.config_path)

-- A property of the recorded topology.
abbrev Fine : {W : Type 0} → (Option AppliedTopology → Type 0) → Managed (Plant W) → Type 0
Fine Good s = Good s.current

module _ {W : Type 0} (Good : Option AppliedTopology → Type 0) where
  on_plant-Keeps : {A : Type 0} (m : OnPlant W A) → Keeps (Fine Good) (on_plant m)
  on_plant-Keeps m = record { at = λ s h. h }

  has_applied-Keeps : Keeps (Fine {W = W} Good) has_applied_topology
  has_applied-Keeps = record { at = λ s h. h }

module _ {W : Type 0} (env : Env W) (Good : Option AppliedTopology → Type 0)
    (good : Good none) where
  destroyed-Good :
      (before : Option AppliedTopology) (x : Outcome TopologyOperationResult × Managed (Plant W))
      → Good before
      → AfterDestroy env.chars (plant_shell env.shell) (manager_config env) before x
      → Fine Good x.1
  destroyed-Good before (ok _, s) h d = subst Good (sym d.0) good
  destroyed-Good before (raised e, s) h d = subst Good (sym d.0) h

  manager_destroy-Keeps : Keeps (Fine Good) (manager_destroy env)
  manager_destroy-Keeps = record {
    at = λ s h.
        destroyed-Good s.current (manager_destroy env s) h
          (destroy-current env.chars (plant_shell env.shell) (manager_config env) s);
  }

  destroy_topology-Keeps : Keeps (Fine Good) (destroy_topology env)
  unfolding destroy_topology
  destroy_topology-Keeps =
      search
        (Keeps-pure, Keeps-raise, Keeps-bind, Keeps-catch, on_plant-Keeps, manager_destroy-Keeps)
        depth 20

  module _ (path : String)
      (new : (v : ValidatedTopologyConfig)
        → Good (some (record { config_path = path; validated = v }))) where
    applied-Good :
        (before : Managed (Plant W)) (x : Outcome TopologyOperationResult × Managed (Plant W))
        → Good before.current
        → AfterApply env.chars (plant_shell env.shell) (manager_config env) path before x
        → Fine Good x.1
    applied-Good before (ok _, s) h d = subst Good (sym d.2) (new d.0)
    applied-Good before (raised e, s) h (inl same) = subst Good (sym same) h
    applied-Good before (raised e, s) h (inr gone) = subst Good (sym gone) good

    manager_apply-Keeps : Keeps (Fine Good) (manager_apply env path)
    manager_apply-Keeps = record {
      at = λ s h.
          applied-Good s (manager_apply env path s) h
            (apply-current env.chars (plant_shell env.shell) (manager_config env) path s);
    }

    apply_topology-Keeps : Keeps (Fine Good) (apply_topology env path)
    unfolding apply_topology
    apply_topology-Keeps =
        search
          (
            Keeps-pure, Keeps-raise, Keeps-if, Keeps-bind, Keeps-catch, on_plant-Keeps,
            has_applied-Keeps, manager_apply-Keeps,
          )
          depth 20

-- What is applied after a request to destroy or to apply, however it ends.
abbrev Left : Option String → Option String → Option AppliedTopology → Type 0
Left c new current =
    (applied_path current ≡ c) ⊎ ((applied_path current ≡ none) ⊎ (applied_path current ≡ new))

-- The response of the routes of the topology router.
abbrev topology_reply : Outcome TopologyOperationResult → Response
topology_reply x = topology_body (reply topology_http_status topology_response x)

raised-IsRefusal : (e : Exn) → IsRefusal (topology_reply (raised e))
unfolding reply
raised-IsRefusal (typed e) = tt
raised-IsRefusal _ = tt

module _ {W : Type 0} {c : Option String} where
  destroyed-Step :
      (x : Outcome TopologyOperationResult × Managed (Plant W))
      → ((result : TopologyOperationResult) → x.0 ≡ ok result → x.1.current ≡ none)
      → Left c none x.1.current
      → Step c destroy_request (topology_reply x.0) (applied_path x.1.current)
  destroyed-Step (ok result, s) gone left = rw (gone result refl) cleared
  destroyed-Step (raised e, s) gone (inl same) = rw same (kept (λ h. raised-IsRefusal e))
  destroyed-Step (raised e, s) gone (inr (inl none_left)) = rw none_left cleared
  destroyed-Step (raised e, s) gone (inr (inr none_left)) = rw none_left cleared

  applied-Step :
      (payload : TopologyApplyRequestModel)
      (x : Outcome TopologyOperationResult × Managed (Plant W))
      → ((result : TopologyOperationResult)
          → x.0 ≡ ok result
          → applied_path x.1.current ≡ some payload.config_path)
      → Left c (some payload.config_path) x.1.current
      → Step c (apply_request payload) (topology_reply x.0) (applied_path x.1.current)
  applied-Step payload (ok result, s) new left = rw (new result refl) installed
  applied-Step payload (raised e, s) new (inl same) = rw same (kept (λ h. raised-IsRefusal e))
  applied-Step payload (raised e, s) new (inr (inl none_left)) =
      rw none_left (lost tt (raised-IsRefusal e))
  applied-Step payload (raised e, s) new (inr (inr named)) = rw named installed

module _ {W : Type 0} (env : Env W) where
  destroy_topology-gone :
      (s : Managed (Plant W)) (result : TopologyOperationResult)
      → (destroy_topology env s).0 ≡ ok result
      → (destroy_topology env s).1.current ≡ none
  destroy_topology-gone s = go (destroy_topology env s) (destroy_topology-IsCleared env s)
    where
      go :
          (x : Outcome TopologyOperationResult × Managed (Plant W))
          → Post
              (λ _ s'. (s'.current ≡ none) × IsCleared s.plant.runtime s'.plant)
              (λ _ s'. IsLive s.plant.runtime s'.plant)
              x
          → (result : TopologyOperationResult) → x.0 ≡ ok result
          → x.1.current ≡ none
      go (ok _, s') h result e = h.0
      go (raised _, s') h result e = cc e

  blank-raised :
      (path : String) (s : Managed (Plant W))
      → is_blank env.chars path ≡ true
      → (apply_topology env path s).0
        ≡ raised (value_error "config_path must be a non-empty string")
  unfolding apply_topology
  blank-raised path s blank = rw blank refl

  apply_topology-named :
      (path : String) (s : Managed (Plant W)) (result : TopologyOperationResult)
      → (apply_topology env path s).0 ≡ ok result
      → applied_path (apply_topology env path s).1.current ≡ some path
  apply_topology-named path s result e = elim (Bool-cases (is_blank env.chars path)) [
    | inl blank ↦ absurd (cc (blank-raised path s blank, e))
    | inr given ↦ go (apply_topology env path s) (apply_topology-IsApplied env path s given) e
  ]
    where
      go :
          (x : Outcome TopologyOperationResult × Managed (Plant W))
          → Finishes env s.plant.runtime path x
          → x.0 ≡ ok result
          → applied_path x.1.current ≡ some path
      go (ok _, s') (v, current, h) e = rw current refl
      go (raised _, s') h e = cc e

  -- Every request is a step of the abstract machine.
  serve-Step :
      (request : Request) (s : Managed (Plant W))
      → Step
          (applied_path s.current)
          request
          (serve env request s).0
          (applied_path (serve env request s).1.current)
  unfolding serve
  serve-Step get_health s = kept (λ h. absurd h)
  serve-Step get_datapath_status s = kept (λ h. absurd h)
  serve-Step get_datapath_stats s = kept (λ h. absurd h)
  serve-Step reset_stats_request s = kept (λ h. absurd h)
  serve-Step pause_request s = kept (λ h. absurd h)
  serve-Step resume_request s = kept (λ h. absurd h)
  serve-Step destroy_request s = destroyed-Step (destroy_topology env s) (destroy_topology-gone s) (
      (destroy_topology-Keeps env (Left (applied_path s.current) none) (inr (inl refl))).at s
        (inl refl))
  serve-Step (apply_request payload) s =
      let path = payload.config_path in
      applied-Step payload (apply_topology env path s) (apply_topology-named path s) (
        (apply_topology-Keeps env (Left (applied_path s.current) (some path)) (inr (inl refl)) path
            (λ v. inr (inr refl))).at
          s (inl refl))

  -- Serving requests refines the abstract machine on the path of the applied configuration, request
  -- for request. A request to apply that is answered by a result installs the path that it names,
  -- and one to destroy that is answered by a result clears it. One that is refused or ends in an
  -- exception keeps the configuration, clears it or, to apply, installs the path that it names. Every
  -- other request keeps it.
  pub serve_all-Run :
      (requests : List Request) (s : Managed (Plant W))
      → Run
          (applied_path s.current)
          requests
          (serve_all env requests s).0
          (applied_path (serve_all env requests s).1.current)
  unfolding serve_all
  serve_all-Run [] s = done
  serve_all-Run (request ∷ rest) s =
      next (serve-Step request s) (serve_all-Run rest (serve env request s).1)
