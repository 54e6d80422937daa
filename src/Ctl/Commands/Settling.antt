-- ===== src/Ctl/Commands/Settling.antt =====
-- When a command returns an exit code and lets no exception pass.
use pktlab.Base.{String, Bool, true, false, rstrip_char}
use pktlab.Ctl.{Fetched, fetched, bad_value}
use pktlab.Ctl.Client.{ControllerClient}
use pktlab.Ctl.Client.Failures.{Settled}
use pktlab.Ctl.Commands.{
  Exit, exit_code, uncaught, Caught, client_and_value_errors, Subcommand, stats_show, stats_reset,
}

-- The command returned an exit code.
abbrev pub Exits : Exit → Type 0
Exits (exit_code n) = Unit
Exits (uncaught m) = ⊥

-- An end of the client's method that the `except` clause covers.
abbrev Covered : {A : Type 0} → Caught → Fetched A → Type 0
Covered client_and_value_errors (bad_value m) = Unit
Covered caught x = Settled x

-- A text that has been rendered.
abbrev Rendered : Fetched String → Type 0
Rendered (fetched line) = Unit
Rendered _ = ⊥

-- The client that a command makes for a controller URL.
abbrev client_for : String → ControllerClient
client_for url = record { base_url = rstrip_char b'/' url; timeout_seconds = 2000 }

-- Output that is JSON, or a command whose output has no rule ids to sort by.
abbrev pub IsPlain : Bool → Subcommand → Type 0
IsPlain true c = Unit
IsPlain false stats_show = ⊥
IsPlain false stats_reset = ⊥
IsPlain false _ = Unit
