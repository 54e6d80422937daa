-- ===== src/Ctl/Commands.antt =====
-- The commands of ctl/pktlabctl/commands and their dispatch in ctl/pktlabctl/cli.py. A command
-- returns an exit code and writes to the two output streams, or lets an exception pass.
pub mod Exits
pub mod Settling
use pktlab.Base.{ℕ, ℤ, String, Bool, true, false, Option, ◌<>◌, if◌then◌else◌, CharTable}
use pktlab.Ctl.{Fetched, fetched, client_error, bad_value, escaped, and_fetch, Services}
use pktlab.Ctl.Client.{
  ControllerClient, make_client, Call, get_datapath_status, get_datapath_stats,
  reset_datapath_stats, pause_datapath, resume_datapath, apply_topology, destroy_topology,
}
use pktlab.Ctl.Output.{
  render_status, render_stats, render_stats_reset, render_datapath_control, render_topology_result,
}

-- What has been written to standard output and standard error, and the world.
pub record Terminal (W : Type 0) : Type 0 where
  pub stdout : String
  pub stderr : String
  pub world : W

pub data Exit : Type 0 where
  exit_code : ℕ → Exit
  uncaught : String → Exit

abbrev pub Command : Type 0 → Type 0
Command W = Terminal W → Exit × Terminal W

-- The exceptions that a command's `except` clause names: the client's, or a ValueError as well.
pub data Caught : Type 0 where
  client_errors client_and_value_errors : Caught

-- The arguments that `parse_args` leaves: a command with its options.
pub data Subcommand : Type 0 where
  status stats_show stats_reset datapath_pause datapath_resume topology_destroy : Subcommand
  topology_apply : String → Subcommand

pub record Args : Type 0 where
  pub controller_url : String
  pub json_output : Bool
  pub command : Subcommand

module _ {W : Type 0} where
  -- `stderr.write(f"pktlabctl: {exc}\\n"); return 1`
  abbrev pub fail_with : String → Command W
  fail_with message s =
      (exit_code 1, record s { stderr = s.stderr <> ("pktlabctl: " <> message <> "\n") })

  -- `stdout.write(text); stdout.write("\\n"); return 0`; the rendering may raise before it.
  unfoldable pub print : Fetched String → Command W
  print (fetched text) s = (exit_code 0, record s { stdout = (s.stdout <> text) <> "\n" })
  print (client_error m) s = (uncaught m, s)
  print (bad_value m) s = (uncaught m, s)
  print (escaped m) s = (uncaught m, s)

  -- The `try` of a command, its `except` clause, and what follows it.
  unfoldable pub conclude : {M : Type 0} → Caught → (M → Fetched String) → Fetched M → Command W
  unfolding print
  conclude caught render (fetched payload) = print (render payload)
  conclude caught render (client_error m) = fail_with m
  conclude client_errors render (bad_value m) = λ s. (uncaught m, s)
  conclude client_and_value_errors render (bad_value m) = fail_with m
  conclude caught render (escaped m) = λ s. (uncaught m, s)

  -- A call on a client, once there is one.
  abbrev pub on_client :
      {M : Type 0} → Fetched ControllerClient → (ControllerClient → Call W M) → Call W M
  on_client (fetched client) method w = method client w
  on_client (client_error m) method w = (client_error m, w)
  on_client (bad_value m) method w = (bad_value m, w)
  on_client (escaped m) method w = (escaped m, w)

  -- `ControllerClient(controller_url).method()`, the timeout at its default of 2 s.
  unfoldable pub call : {M : Type 0} → CharTable → String → (ControllerClient → Call W M) → Call W M
  call t controller_url method = on_client (make_client t controller_url 2000) method

  -- A command: the call in its `try`, then the output.
  unfoldable pub run :
      {M : Type 0}
      → CharTable
      → Caught
      → String
      → (ControllerClient → Call W M)
      → (M → Fetched String)
      → Command W
  unfolding call conclude
  run t caught controller_url method render s =
      let (payload, w) = call t controller_url method s.world in
      conclude caught render payload (record s { world = w })

module _ {W : Type 0} (t : CharTable) (int : String → Option ℤ) (services : Services W) where
  unfoldable pub run_status : String → Bool → Command W
  unfolding run
  run_status controller_url json_output =
      run t client_errors controller_url (get_datapath_status services)
        (λ payload. fetched (render_status services payload json_output))

  unfoldable pub run_stats_show : String → Bool → Command W
  unfolding run
  run_stats_show controller_url json_output =
      run t client_errors controller_url (get_datapath_stats services)
        (λ payload. render_stats services int payload json_output)

  unfoldable pub run_stats_reset : String → Bool → Command W
  unfolding run
  run_stats_reset controller_url json_output =
      run t client_errors controller_url (reset_datapath_stats services)
        (λ payload. render_stats_reset services t int payload json_output)

  unfoldable pub run_datapath_pause : String → Bool → Command W
  unfolding run
  run_datapath_pause controller_url json_output =
      run t client_errors controller_url (pause_datapath services)
        (λ payload. fetched (render_datapath_control services "pause" payload json_output))

  unfoldable pub run_datapath_resume : String → Bool → Command W
  unfolding run
  run_datapath_resume controller_url json_output =
      run t client_errors controller_url (resume_datapath services)
        (λ payload. fetched (render_datapath_control services "resume" payload json_output))

  unfoldable pub run_topology_apply : String → String → Bool → Command W
  unfolding run
  run_topology_apply controller_url config_path json_output =
      run t client_and_value_errors controller_url
        (λ client. apply_topology services client t config_path)
        (λ payload. fetched (render_topology_result services payload json_output))

  unfoldable pub run_topology_destroy : String → Bool → Command W
  unfolding run
  run_topology_destroy controller_url json_output =
      run t client_errors controller_url (destroy_topology services)
        (λ payload. fetched (render_topology_result services payload json_output))

  unfoldable pub dispatch : Subcommand → String → Bool → Command W
  unfolding run_status run_stats_show run_stats_reset run_datapath_pause run_datapath_resume
      run_topology_apply run_topology_destroy
  dispatch status = run_status
  dispatch stats_show = run_stats_show
  dispatch stats_reset = run_stats_reset
  dispatch datapath_pause = run_datapath_pause
  dispatch datapath_resume = run_datapath_resume
  dispatch (topology_apply config_path) = λ url json. run_topology_apply url config_path json
  dispatch topology_destroy = run_topology_destroy

  -- `main`, after the arguments have been parsed.
  unfoldable pub main : Args → Command W
  unfolding dispatch
  main args = dispatch args.command args.controller_url args.json_output
