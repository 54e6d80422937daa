-- ===== src/Ctl/Commands/Exits.antt =====
-- The exit codes and the output of the commands.
use pktlab.Base.{zero, suc, ℤ, String, Bool, Option, ◌≡◌, refl, ◌<>◌, CharTable}
use pktlab.Ctl.{Fetched, fetched, client_error, bad_value, escaped, Services}
use pktlab.Ctl.Client.{
  ControllerClient, Call, get_datapath_status, get_datapath_stats, reset_datapath_stats,
  pause_datapath, resume_datapath, apply_topology, destroy_topology,
}
use pktlab.Ctl.Output.{
  render_status, render_stats, render_stats_reset, render_datapath_control, render_topology_result,
}
use pktlab.Ctl.Commands.{
  Terminal, Exit, exit_code, uncaught, Caught, client_errors, client_and_value_errors, Subcommand,
  status, stats_show, stats_reset, datapath_pause, datapath_resume, topology_destroy,
  topology_apply, Args, print, conclude, call, run, run_status, run_stats_show, run_stats_reset,
  run_datapath_pause, run_datapath_resume, run_topology_apply, run_topology_destroy, dispatch, main,
}

module _ {W : Type 0} where
  -- How a command ends that has found the terminal `s`: with 0 and one text on standard output, with 1
  -- and one message on standard error, or with an exception and nothing written.
  abbrev pub IsExit : Terminal W → Exit × Terminal W → Type 0
  IsExit s (exit_code zero, s') =
      (text : String) × (s'.stdout ≡ (s.stdout <> text) <> "\n") × (s'.stderr ≡ s.stderr)
  IsExit s (exit_code (suc zero), s') =
      (m : String) × (s'.stderr ≡ s.stderr <> ("pktlabctl: " <> m <> "\n")) × (s'.stdout ≡ s.stdout)
  IsExit s (exit_code (suc (suc _)), s') = ⊥
  IsExit s (uncaught m, s') = (s'.stdout ≡ s.stdout) × (s'.stderr ≡ s.stderr)

  print-IsExit : (text : Fetched String) (s : Terminal W) → IsExit s (print text s)
  unfolding print
  print-IsExit (fetched text) s = (text, refl, refl)
  print-IsExit (client_error m) s = (refl, refl)
  print-IsExit (bad_value m) s = (refl, refl)
  print-IsExit (escaped m) s = (refl, refl)

  conclude-IsExit :
      {M : Type 0} (caught : Caught) (render : M → Fetched String) (payload : Fetched M)
      (s : Terminal W)
      → IsExit s (conclude caught render payload s)
  unfolding conclude
  conclude-IsExit caught render (fetched payload) s = print-IsExit (render payload) s
  conclude-IsExit caught render (client_error m) s = (m, refl, refl)
  conclude-IsExit client_errors render (bad_value m) s = (refl, refl)
  conclude-IsExit client_and_value_errors render (bad_value m) s = (m, refl, refl)
  conclude-IsExit caught render (escaped m) s = (refl, refl)

  run-IsExit :
      {M : Type 0} (t : CharTable) (caught : Caught) (url : String)
      (method : ControllerClient → Call W M) (render : M → Fetched String) (s : Terminal W)
      → IsExit s (run t caught url method render s)
  unfolding run
  run-IsExit t caught url method render s =
      let x = call t url method s.world in
      conclude-IsExit caught render x.0 (record s { world = x.1 })

module _ {W : Type 0} (t : CharTable) (int : String → Option ℤ) (services : Services W) where
  dispatch-IsExit :
      (c : Subcommand) (url : String) (json : Bool) (s : Terminal W)
      → IsExit s (dispatch t int services c url json s)
  unfolding dispatch run_status run_stats_show run_stats_reset run_datapath_pause
      run_datapath_resume run_topology_apply run_topology_destroy
  dispatch-IsExit status url json s =
      run-IsExit t client_errors url (get_datapath_status services)
        (λ payload. fetched (render_status services payload json)) s
  dispatch-IsExit stats_show url json s =
      run-IsExit t client_errors url (get_datapath_stats services)
        (λ payload. render_stats services int payload json) s
  dispatch-IsExit stats_reset url json s =
      run-IsExit t client_errors url (reset_datapath_stats services)
        (λ payload. render_stats_reset services t int payload json) s
  dispatch-IsExit datapath_pause url json s =
      run-IsExit t client_errors url (pause_datapath services)
        (λ payload. fetched (render_datapath_control services "pause" payload json)) s
  dispatch-IsExit datapath_resume url json s =
      run-IsExit t client_errors url (resume_datapath services)
        (λ payload. fetched (render_datapath_control services "resume" payload json)) s
  dispatch-IsExit topology_destroy url json s =
      run-IsExit t client_errors url (destroy_topology services)
        (λ payload. fetched (render_topology_result services payload json)) s
  dispatch-IsExit (topology_apply path) url json s =
      run-IsExit t client_and_value_errors url (λ client. apply_topology services client t path)
        (λ payload. fetched (render_topology_result services payload json)) s

  -- Every command returns 0 after writing one text and a line break to standard output and nothing
  -- to standard error, or 1 after writing "pktlabctl: ", a message, which may have several lines, and
  -- a line break to standard error and nothing to standard output; or it lets an exception pass and
  -- writes nothing at all.
  pub main-IsExit : (args : Args) (s : Terminal W) → IsExit s (main t int services args s)
  unfolding main
  main-IsExit args s = dispatch-IsExit args.command args.controller_url args.json_output s
