-- ===== src/Tests/Commanding.antt =====
-- Examples of the command line client.
use mathlib.Core.List.{Perm}
use pktlab.Base.{
  ℕ, ◌+◌, ℤ, pos, ◌≡◌, refl, true, false, some, none, Option, decimal, List, [], ◌∷◌, String,
  str_eq, map, if◌then◌else◌,
}
use pktlab.Error.{dict, end}
use pktlab.Types.{ingress}
use pktlab.Ipc.{up}
use pktlab.Topology.Manager.{nothing_applied}
use pktlab.Controller.{
  DatapathRuntimeStatusSnapshot, DatapathStatsResetResult, DatapathControlResult,
}
use pktlab.Controller.Health.{unmanaged_datapath_status}
use pktlab.Api.Models.{status_response, stats_reset_response, control_response, topology_response}
use pktlab.Ctl.{Services, fetched, received, document, matches, mismatch}
use pktlab.Ctl.Output.{Hit, rule_hit_lines, hit_line, insert_hit, integer, int_leb}
use pktlab.Ctl.Output.Ordered.{AreKeyed, IsSorted, rule_hit_lines-IsSorted}
use pktlab.Ctl.Commands.{Terminal, Args, topology_destroy, main}
use pktlab.Ctl.Commands.Exits.{IsExit, main-IsExit}
use pktlab.Ctl.Commands.Settling.{Exits}
use pktlab.Ctl.Schema.{
  accepts_status, accepts_reset, accepts_control, accepts_topology, seen_status, seen_reset,
  seen_control, seen_topology,
}
use pktlab.Ctl.Schema.Compatible.{Sent, responses-Sent}
use pktlab.Tests.{ascii}
use pktlab.Tests.Supervision.{busy}

-- A controller that answers every request with an empty object, which no model accepts.
abbrev services : Services ℕ
services = record {
  request = λ url timeout method path body w. (received (document (dict end)), w + 1);
  value_text = λ v. "";
  check_health = λ v. mismatch "controller: Field required";
  check_status = λ v. mismatch "controller: Field required";
  check_stats = λ v. mismatch "datapath: Field required";
  check_reset = λ v. mismatch "datapath: Field required";
  check_control = λ v. mismatch "datapath: Field required";
  check_topology = λ v. matches (record {
    operation = "destroy";
    topology_name = none;
    config_path = none;
    applied = false;
    datapath_namespace = none;
    datapath_running = false;
    message = "topology destroyed";
  });
  dump_status = λ m. "{}";
  dump_stats = λ m. "{}";
  dump_reset = λ m. "{}";
  dump_control = λ m. "{}";
  dump_topology = λ m. "{}";
}

abbrev number : String → Option ℤ
number s = if str_eq s "10" then some (pos 10) else if str_eq s "9" then some (pos 9) else none

abbrev destroying : Args
destroying = record {
  controller_url = "http://127.0.0.1:8080/";
  json_output = false;
  command = topology_destroy;
}

abbrev blank_screen : Terminal ℕ
blank_screen = record { stdout = ""; stderr = ""; world = 0 }

main-IsExit_example : IsExit blank_screen (main ascii number services destroying blank_screen)
main-IsExit_example = main-IsExit ascii number services destroying blank_screen

abbrev sorted_lines : List String
sorted_lines = "  rule_hits:" ∷ "    9: 5" ∷ "    10: 2" ∷ []

rendered : rule_hit_lines number (("10", pos 2) ∷ ("9", pos 5) ∷ []) ≡ fetched sorted_lines
unfolding rule_hit_lines insert_hit int_leb integer decimal
rendered = refl

rule_hit_lines-IsSorted_example :
    (rows : List Hit) × (sorted : List Hit) × AreKeyed number
      (("10", pos 2) ∷ ("9", pos 5) ∷ [])
      rows
    × Perm sorted rows
    × IsSorted sorted
    × (sorted_lines ≡ "  rule_hits:" ∷ map hit_line sorted)
rule_hit_lines-IsSorted_example =
    rule_hit_lines-IsSorted number ("10", pos 2) (("9", pos 5) ∷ []) sorted_lines rendered

abbrev status_snapshot : DatapathRuntimeStatusSnapshot
status_snapshot = record {
  controller_snapshot = record {
    controller_service = "pktlab-ctrld";
    controller_version = "0.1.0";
    controller_state = busy.controller_state;
    controller_message = "controller ready";
    desired_state = busy.desired_state;
    observed_state = busy.observed_state;
    datapath_status = unmanaged_datapath_status busy;
  };
  ports = record { name = "in0"; port_id = 0; role = ingress; state = up } ∷ [];
}

abbrev reset_result : DatapathStatsResetResult
reset_result = record {
  datapath_status = unmanaged_datapath_status busy;
  stats = record {
    rx_packets = 0;
    tx_packets = 0;
    drop_packets = 0;
    drop_parse_errors = 0;
    drop_no_match = 0;
    rx_bursts = 0;
    tx_bursts = 0;
    unsent_packets = 0;
    rule_hits = ("10", pos 2) ∷ [];
  };
  message = "stats reset";
}

abbrev paused : DatapathControlResult
paused = record { datapath_status = unmanaged_datapath_status busy; message = "paused" }

responses-Sent_example :
    Sent (λ m. accepts_status (seen_status m) ≡ true) (status_response status_snapshot)
    × Sent (λ m. accepts_reset (seen_reset m) ≡ true) (stats_reset_response reset_result)
    × Sent (λ m. accepts_control (seen_control m) ≡ true) (control_response paused)
    × Sent (λ m. accepts_topology (seen_topology m) ≡ true) (topology_response nothing_applied)
responses-Sent_example = responses-Sent status_snapshot reset_result paused nothing_applied
