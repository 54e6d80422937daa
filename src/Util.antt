-- ===== src/Util.antt =====
-- The package ctrld/pktlab_ctrld/util: subprocesses, the `ip` wrapper and waiting.
-- `Shell` is what they use of `subprocess.run`, of the clock and of `str` of an exception.
-- Times are whole ticks of the clock.
pub mod Netns
pub mod Time
use pktlab.Base.{
  ℕ, String, Bool, true, false, ◌||◌, not, List, [], ◌∷◌, ◌==◌, ℤ, pos, negsuc, if◌then◌else◌,
}
use pktlab.Error.{Context, end, entry, list, int, texts, text_or_null, execution_error, Exn, typed}
use pktlab.Effect.{Outcome, ok, Action, pure, raise, ◌>>=◌}

-- `subprocess.CompletedProcess`
pub record Completed : Type 0 where
  pub returncode : ℤ
  pub stdout : String
  pub stderr : String

pub record Shell (W : Type 0) : Type 0 where
  pub run : List String → Action W Completed
  pub monotonic : W → ℕ × W
  pub sleep : ℕ → W → W
  pub describe : Exn → String

-- `returncode in allowed`
abbrev pub is_allowed : ℤ → List ℕ → Bool
is_allowed code [] = false
is_allowed (pos n) (m ∷ rest) = n == m || is_allowed (pos n) rest
is_allowed (negsuc n) (m ∷ rest) = is_allowed (negsuc n) rest

abbrev pub command_failed : List String → Completed → Exn
command_failed argv c = typed (
    execution_error "subprocess command failed" (
      entry "argv" (list (texts argv)) (
        entry "returncode" (int c.returncode)
          (entry "stdout" (text_or_null c.stdout) (entry "stderr" (text_or_null c.stderr) end)))))

-- `CommandExecutor.run`; the argv of its result is the argument.
unfoldable pub execute : {W : Type 0} → Shell W → List ℕ → List String → Action W Completed
execute shell allowed argv = do
  completed ← shell.run argv
  if is_allowed completed.returncode allowed
      then pure completed
      else raise (command_failed argv completed)
