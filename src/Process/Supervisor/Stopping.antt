-- ===== src/Process/Supervisor/Stopping.antt =====
-- Stopping the datapath, and what a failed start leaves behind.
use pktlab.Base.{
  ℕ, String, ◌≡◌, refl, ◌⊎◌, inl, inr, Bool, true, false, Option, none, some, List, CharTable,
  on_option, ap, if◌then◌else◌,
}
use pktlab.Error.{Exn}
use pktlab.Effect.{Outcome, ok, raised, Action, pure, raise, catch, continue, ◌>>◌}
use pktlab.Effect.Triple.{Post, bind-Post, catch-Post, Post-weaken}
use pktlab.Effect.Returns.{Holds}
use pktlab.Util.{Shell}
use pktlab.Ipc.{Codec, Sockets}
use pktlab.Process.{DatapathProcessStatus, Processes, DpdkdSupervisor, Supervised, new_supervisor}
use pktlab.Process.Fields.{clear, detach, attach, command_line}
use pktlab.Process.Supervisor.{
  on_world, update, clear_if, end_process, consume_stderr, stop_locked, stop, stop_and_raise,
  wait_for_ready, spawn,
}
use pktlab.Process.Supervisor.Status.{IsReady, wait_for_ready-IsReady}

-- The supervisor's fields are `d`.
abbrev At : {W A : Type 0} → DpdkdSupervisor → A → Supervised W → Type 0
At d a s = s.supervisor ≡ d

on_world-At :
    {W A : Type 0} (d : DpdkdSupervisor) (m : Action W A) (s : Supervised W)
    → s.supervisor ≡ d
    → Post {A = A} (At d) (At d) (on_world m s)
on_world-At {W} {A} d m s h = go (m s.world)
  where
    go : (r : Outcome A × W) → Post {A = A} (At d) (At d) (r.0, record s { world = r.1 })
    go (ok a, w) = h
    go (raised e, w) = h

Holds-Post :
    {W A : Type 0} (Q : A → Type 0) (r : Outcome A × W)
    → Holds Q r.0
    → Post (λ a _. Q a) (λ _ _. Unit) r
Holds-Post Q (ok a, w) h = h
Holds-Post Q (raised e, w) h = tt

module _ {W : Type 0} (t : CharTable) (shell : Shell W) (processes : Processes W)
    (sockets : Sockets W) (codec : Codec) where
  end_stage-At :
      (d : DpdkdSupervisor) (o : Option ℕ) (n : ℕ) (s : Supervised W)
      → s.supervisor ≡ d
      → Post {A = Unit} (At d) (At d) (
          on_option o
            (pure tt)
            (λ p.
              on_world (end_process t shell processes sockets codec p n)
              >> (on_world (consume_stderr t shell processes sockets codec p) >> pure tt))
            s)
  end_stage-At d none n s h = h
  end_stage-At d (some p) n s h =
      bind-Post (At d) (At d) (At d) (on_world (end_process t shell processes sockets codec p n)) _
        s (on_world-At d (end_process t shell processes sockets codec p n) s h)
        (λ _ s1 h1.
          bind-Post (At d) (At d) (At d)
            (on_world (consume_stderr t shell processes sockets codec p)) _ s1
            (on_world-At d (consume_stderr t shell processes sockets codec p) s1 h1)
            (λ _ s2 h2. h2))

  clear_if-At :
      (b : Bool) (d : DpdkdSupervisor) (s : Supervised W)
      → s.supervisor ≡ d
      → Post {A = Unit}
          (At (if b then clear d else d))
          (At d)
          (clear_if t shell processes sockets codec b s)
  clear_if-At true d s h = ap clear h
  clear_if-At false d s h = h

  stop_locked-Post :
      (b : Bool) (s : Supervised W)
      → let d = detach s.supervisor in
        Post {A = Unit}
          (At (if b then clear d else d))
          (At d)
          (stop_locked t shell processes sockets codec b s)
  unfolding stop_locked
  stop_locked-Post b s =
      let d = detach s.supervisor in
      let n = s.config.shutdown_timeout_seconds in
      let s' : Supervised W = record s { supervisor = d } in
      bind-Post (At (if b then clear d else d)) (At d) (At d)
        (on_option s.process (pure tt) (λ p.
          on_world (end_process t shell processes sockets codec p n)
          >> (on_world (consume_stderr t shell processes sockets codec p) >> pure tt)))
        (λ _. clear_if t shell processes sockets codec b) s' (end_stage-At d s.process n s' refl)
        (λ _ s1 h. clear_if-At b d s1 h)

  -- A stop that returns leaves the supervisor as it was made for its configuration. One that raises
  -- has dropped the process and the client too, and has kept the rest.
  pub stop-new :
      (s : Supervised W)
      → Post {A = Unit}
          (λ _ s'. s'.supervisor ≡ new_supervisor s.config)
          (λ e s'. s'.supervisor ≡ record s.supervisor { process = none; client = none })
          (stop t shell processes sockets codec s)
  unfolding stop clear detach
  stop-new s = stop_locked-Post true s

  -- The datapath could not be started from the command line `argv`.
  abbrev pub Unspawned : List String → W → Exn → Type 0
  Unspawned argv w e = (w' : W) × (processes.popen argv w ≡ (raised e, w'))

  abbrev pub Gone : DpdkdSupervisor → Type 0
  Gone s = (s.process ≡ none) × (s.client ≡ none)

  -- How a spawn ends: with a ready datapath, or with none.
  abbrev pub Settled : List String → W → Outcome DatapathProcessStatus × Supervised W → Type 0
  Settled argv w r =
      Post (λ status s'. IsReady status) (λ x s'. Gone s'.supervisor ⊎ Unspawned argv w x) r

  raise_again :
      (argv : List String) (w : W) (e : Exn) (s : Supervised W)
      → Settled argv w (stop_and_raise t shell processes sockets codec e s)
  unfolding detach
  raise_again argv w e s =
      let Q = λ (status : DatapathProcessStatus) (s' : Supervised W). IsReady status in
      let E = λ (x : Exn) (s' : Supervised W). Gone s'.supervisor ⊎ Unspawned argv w x in
      bind-Post Q E (At {A = Unit} (detach s.supervisor))
        (stop_locked t shell processes sockets codec false) (λ _. raise e) s
        (Post-weaken (At {A = Unit} (detach s.supervisor)) E (At {A = Unit} (detach s.supervisor))
          (At (detach s.supervisor)) (stop_locked t shell processes sockets codec false s)
          (λ _ s' h. h) (λ x s' h. inl (cc h, cc h)) (stop_locked-Post false s))
        (λ _ s' h. inl (cc h, cc h))

  after_attach :
      (argv : List String) (w : W) (s : Supervised W)
      → Settled argv w (
          catch
            (wait_for_ready t shell processes sockets codec)
            (stop_and_raise t shell processes sockets codec)
            s)
  after_attach argv w s =
      let Q = λ (status : DatapathProcessStatus) (s' : Supervised W). IsReady status in
      let E = λ (x : Exn) (s' : Supervised W). Gone s'.supervisor ⊎ Unspawned argv w x in
      catch-Post Q E (λ _ _. Unit) (wait_for_ready t shell processes sockets codec)
        (stop_and_raise t shell processes sockets codec) s
        (Holds-Post IsReady (wait_for_ready t shell processes sockets codec s)
          ((wait_for_ready-IsReady t shell processes sockets codec).at s))
        (λ e s' _. raise_again argv w e s')

  -- Spawning either returns with a datapath that has answered over IPC, or raises and leaves no
  -- process and no client in the supervisor; only if the command could not be started at all are
  -- they those from before.
  pub spawn_settles :
      (s : Supervised W)
      → Settled (command_line s.config) s.world (spawn t shell processes sockets codec s)
  unfolding spawn clear
  spawn_settles s = spawned (processes.popen (command_line s.config) s.world) refl
    where
      spawned :
          (r : Outcome ℕ × W)
          → processes.popen (command_line s.config) s.world ≡ r
          → Settled (command_line s.config) s.world (
              continue
                (λ p.
                  update (attach p)
                  >> catch
                      (wait_for_ready t shell processes sockets codec)
                      (stop_and_raise t shell processes sockets codec))
                (r.0, record s { supervisor = clear s.supervisor; world = r.1 }))
      spawned (ok p, w) e =
          after_attach (command_line s.config) s.world
            (record { supervisor = attach p (clear s.supervisor); world = w })
      spawned (raised x, w) e = inr (w, e)
