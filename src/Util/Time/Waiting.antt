-- ===== src/Util/Time/Waiting.antt =====
-- Waiting ends: `wait_until` under a clock that does not run backwards.
use pktlab.Base.{
  ℕ, zero, suc, ◌+◌, ◌≤◌, ◌<◌, ◌≡◌, refl, ◌⊎◌, inl, inr, String, Bool, true, false, arith,
  Bool-cases, ltb, ◌==◌, if◌then◌else◌,
}
use pktlab.Error.{Exn}
use pktlab.Effect.{Outcome, ok, raised, Action, pure, continue, ◌>>◌}
use pktlab.Effect.Triple.{Post, Post-weaken}
use pktlab.Util.{Shell}
use pktlab.Util.Time.{timed_out, sleep_for, wait_loop, wait_until}

-- The monotonic clock: a reading is the time at which it is taken, time does not run backwards, and
-- a sleep takes at least as long as it was asked to.
pub record IsClock {W : Type 0} (shell : Shell W) (now : W → ℕ) : Type 0 where
  pub reads : (w : W) → (shell.monotonic w).0 ≡ now (shell.monotonic w).1
  pub advances : (w : W) → now w ≤ now (shell.monotonic w).1
  pub sleeps : (n : ℕ) (w : W) → now w + n ≤ now (shell.sleep n w)

module _ {W : Type 0} (shell : Shell W) (now : W → ℕ) (clock : IsClock shell now)
    (predicate : Action W Bool) (forward : (w : W) → now w ≤ now (predicate w).1) where
  -- The predicate held, and nothing was done after it.
  abbrev pub Held : W → Type 0
  Held w' = (w : W) × (predicate w ≡ (ok true, w'))

  -- The predicate raised, or the deadline had passed.
  abbrev pub Failed : ℕ → Exn → Exn → W → Type 0
  Failed deadline expired e w' =
      ((e ≡ expired) × (deadline ≤ now w')) ⊎ ((w : W) × (predicate w ≡ (raised e, w')))

  round :
      (deadline interval : ℕ) (expired : Exn) (rest : Action W Unit) (w : W) (r : Outcome Bool × W)
      → predicate w ≡ r
      → ((v : W)
          → now r.1 + interval ≤ now v
          → Post {A = Unit} (λ _ v'. Held v') (Failed deadline expired) (rest v))
      → Post {A = Unit}
          (λ _ v'. Held v')
          (Failed deadline expired)
          (continue (λ found. if found then pure tt else (sleep_for shell interval >> rest)) r)
  round deadline interval expired rest w (ok true, w') e later = (w, e)
  round deadline interval expired rest w (ok false, w') e later =
      later (shell.sleep interval w') (clock.sleeps interval w')
  round deadline interval expired rest w (raised x, w') e later = inr (w, e)

  pub wait_loop_ends :
      (fuel deadline interval : ℕ) (expired : Exn) (w : W)
      → 0 < interval
      → deadline < now w + fuel
      → 0 < fuel
      → Post {A = Unit}
          (λ _ w'. Held w')
          (Failed deadline expired)
          (wait_loop shell fuel deadline interval expired predicate w)
  unfolding wait_loop
  wait_loop_ends zero deadline interval expired w pos lt fuelled = absurd (omega arith)
  wait_loop_ends (suc fuel) deadline interval expired w pos lt fuelled =
      let w1 = (shell.monotonic w).1 in
      elim (Bool-cases (ltb (shell.monotonic w).0 deadline)) [
        | inr past ↦ rw past (inl (refl, ground (arith, past, clock.reads w)))
        | inl early ↦ rw early (
            round deadline interval expired
              (wait_loop shell fuel deadline interval expired predicate) w1 (predicate w1) refl
              (λ v le.
                wait_loop_ends fuel deadline interval expired v pos
                  (omega (arith, clock.advances w, forward w1))
                  (ground (arith, early, clock.reads w, clock.advances w, forward w1))))
      ]

  -- Under a clock that does not run backwards, and with a positive timeout and interval, the wait
  -- ends: it returns right after the predicate held, or raises the typed timeout, no earlier than
  -- the timeout after the start, or passes on what the predicate raised.
  pub wait_until_ends :
      (description : String) (timeout_seconds interval : ℕ) (w : W)
      → 0 < timeout_seconds
      → 0 < interval
      → Post {A = Unit}
          (λ _ w'. Held w')
          (Failed (now w + timeout_seconds) (timed_out description timeout_seconds interval))
          (wait_until shell predicate description timeout_seconds interval w)
  unfolding wait_until
  wait_until_ends description t interval w pos_t pos_i =
      let some_time : (t == 0) ≡ false = ground arith in
      let some_step : (interval == 0) ≡ false = ground arith in
      let expired = timed_out description t interval in
      let (reading, w1) = shell.monotonic w in
      let deadline = reading + t in
      rw (some_time, some_step)
        (Post-weaken (λ _ w'. Held w') (Failed (now w + t) expired) (λ _ w'. Held w')
          (Failed deadline expired) (wait_loop shell (suc t) deadline interval expired predicate w1)
          (λ _ w' h. h)
          (λ e w' h. elim h [
            | inl (same, late) ↦ inl (same, omega (arith, clock.reads w, clock.advances w))
            | inr raised_there ↦ inr raised_there
          ])
          (wait_loop_ends (suc t) deadline interval expired w1 pos_i (omega (arith, clock.reads w))
            (omega arith)))
