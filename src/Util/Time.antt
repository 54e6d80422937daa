-- ===== src/Util/Time.antt =====
-- `wait_until` of ctrld/pktlab_ctrld/util/time.py.
pub mod Waiting
use pktlab.Base.{
  ℕ, zero, suc, ◌+◌, String, Bool, true, false, List, [], ◌∷◌, ltb, ◌==◌, if◌then◌else◌, ◌<>◌,
}
use pktlab.Error.{end, entry, text, num, timeout, pktlab_error, Exn, typed, value_error, other}
use pktlab.Effect.{Outcome, ok, raised, Action, pure, raise, ◌>>=◌, ◌>>◌}
use pktlab.Util.{Shell}

abbrev pub timed_out : String → ℕ → ℕ → Exn
timed_out description timeout_seconds interval = typed (
    pktlab_error timeout ("timed out waiting for " <> description) (
      entry "description" (text description) (
        entry "timeout_seconds" (num timeout_seconds)
          (entry "interval_seconds" (num interval) end))))

abbrev pub out_of_fuel : Exn
out_of_fuel = other "out of fuel"

module _ {W : Type 0} (shell : Shell W) where
  abbrev pub read_clock : Action W ℕ
  read_clock w = let (now, w') = shell.monotonic w in (ok now, w')

  abbrev pub sleep_for : ℕ → Action W Unit
  sleep_for n w = (ok tt, shell.sleep n w)

  -- The `while` loop, to the exception after it.
  unfoldable pub wait_loop : ℕ → ℕ → ℕ → Exn → Action W Bool → Action W Unit
  wait_loop zero deadline interval expired predicate = raise out_of_fuel
  wait_loop (suc fuel) deadline interval expired predicate = do
    now ← read_clock
    if ltb now deadline
        then (do
          found ← predicate
          if found
              then pure tt
              else (do sleep_for interval; wait_loop fuel deadline interval expired predicate))
        else raise expired

  -- One round for each tick of the timeout, and the last test, are enough.
  unfoldable pub wait_until : Action W Bool → String → ℕ → ℕ → Action W Unit
  wait_until predicate description timeout_seconds interval =
      if timeout_seconds == 0
      then raise (value_error "timeout_seconds must be greater than zero")
      else if interval == 0
      then raise (value_error "interval_seconds must be greater than zero")
      else (do
        now ← read_clock
        wait_loop (suc timeout_seconds) (now + timeout_seconds) interval
            (timed_out description timeout_seconds interval) predicate)
