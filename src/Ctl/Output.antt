-- ===== src/Ctl/Output.antt =====
-- The rendering of responses: ctl/pktlabctl/output.py.
pub mod Ordered
use pktlab.Base.{
  ℕ, ℤ, pos, negsuc, String, Bool, true, false, Option, none, some, List, [], ◌∷◌, ◌++◌, map,
  if◌then◌else◌, ◌<>◌, decimal, is_empty, is_nil, on_option, or_text, leb, join, splitlines,
  CharTable,
}
use pktlab.Ctl.{
  ControllerStatusModel, DatapathStatusModel, DatapathPortModel, DatapathStatusResponseModel,
  DatapathStatsModel, DatapathStatsResponseModel, DatapathStatsResetResponseModel,
  DatapathControlResponseModel, TopologyOperationResponseModel, Fetched, fetched, bad_value,
  and_fetch, Services,
}

abbrev pub yes_no : Bool → String
yes_no b = if b then "yes" else "no"

-- `str` of an integer.
unfoldable pub integer : ℤ → String
integer (pos n) = decimal n
integer (negsuc n) = "-" <> decimal (ℕ.suc n)

-- A line for a text that is not empty, and one for a value that is not None.
abbrev pub line_of_text : String → Option String → List String
line_of_text label o = on_option o [] (λ s. if is_empty s then [] else (label <> s) ∷ [])

abbrev pub line_of : {A : Type 0} → (A → String) → Option A → List String
line_of f o = on_option o [] (λ a. f a ∷ [])

abbrev pub service_line : DatapathStatusModel → List String
service_line d = on_option d.service [] λ service. on_option d.version [] λ version.
    if is_empty service
    then []
    else if is_empty version
    then []
    else ("  service: "
        <> service
        <> " "
        <> version
        <> on_option d.dpdk_version "" (λ v. if is_empty v then "" else " (DPDK " <> v <> ")"))
      ∷ []

abbrev pub port_line : DatapathPortModel → String
port_line p =
    "  " <> p.role <> ": " <> p.name <> " (id=" <> decimal p.port_id <> ", state=" <> p.state <> ")"

abbrev pub port_lines : List DatapathPortModel → List String
port_lines ports = if is_nil ports then [] else "ports:" ∷ map port_line ports

abbrev status_lines : DatapathStatusResponseModel → List String
status_lines payload =
    let c = payload.controller in
    let d = payload.datapath in
    (("controller: " <> c.state <> " (" <> c.message <> ")")
      ∷ ("  service: " <> c.service <> " " <> c.version)
      ∷ ("datapath: " <> (if d.reachable then "reachable" else "unreachable"))
      ∷ ("  managed: " <> yes_no d.managed)
      ∷ ("  socket: " <> d.socket_path)
      ∷ ("  pid: " <> on_option d.pid "n/a" decimal)
      ∷ [])
    ++ (line_of (λ s. "  state: " <> s) d.state
        ++ (line_of_text "  message: " d.message
            ++ (service_line d
                ++ (line_of (λ n. "  applied_rule_version: " <> decimal n) d.applied_rule_version
                    ++ ((("  ports_ready: " <> yes_no d.ports_ready)
                          ∷ ("  paused: " <> yes_no d.paused)
                          ∷ [])
                        ++ (line_of (λ z. "  exit_code: " <> integer z) d.exit_code
                            ++ (line_of_text "  error: " d.last_error
                                ++ port_lines payload.ports)))))))

unfoldable pub render_human_status : DatapathStatusResponseModel → String
unfolding integer
render_human_status payload = join "\n" (status_lines payload)

-- `<=` of integers.
unfoldable pub int_leb : ℤ → ℤ → Bool
int_leb (pos a) (pos b) = leb a b
int_leb (pos a) (negsuc b) = false
int_leb (negsuc a) (pos b) = true
int_leb (negsuc a) (negsuc b) = leb b a

-- A rule's id as a number, its id and its count.
abbrev pub Hit : Type 0
Hit = ℤ × String × ℤ

-- The insertion of an element before the first one that is not below it, as a stable sort from the
-- right does.
unfoldable pub insert_hit : Hit → List Hit → List Hit
insert_hit h [] = h ∷ []
insert_hit h (x ∷ xs) =
    let rest = insert_hit h xs in if int_leb h.0 x.0 then h ∷ x ∷ xs else x ∷ rest

unfoldable pub sort_hits : List Hit → List Hit
sort_hits [] = []
sort_hits (h ∷ rest) = insert_hit h (sort_hits rest)

-- `int(rule_id)` of every key: the ValueError of the first one that is no number.
unfoldable pub keyed : (String → Option ℤ) → List (String × ℤ) → Fetched (List Hit)
keyed int [] = fetched []
keyed int ((rule_id, count) ∷ rest) =
    let others = keyed int rest in
    on_option (int rule_id)
      (bad_value ("invalid literal for int() with base 10: '" <> rule_id <> "'"))
      (λ n. and_fetch others λ hits. fetched ((n, rule_id, count) ∷ hits))

abbrev pub hit_line : Hit → String
hit_line (n, rule_id, count) = "    " <> rule_id <> ": " <> integer count

-- The lines of the rules, in the order of their ids.
unfoldable pub rule_hit_lines : (String → Option ℤ) → List (String × ℤ) → Fetched (List String)
unfolding sort_hits keyed integer
rule_hit_lines int [] = fetched ("  rule_hits: none" ∷ [])
rule_hit_lines int hits =
    and_fetch (keyed int hits) (λ rows. fetched ("  rule_hits:" ∷ map hit_line (sort_hits rows)))

-- `_render_human_stats_lines`
unfoldable pub render_human_stats_lines :
    (String → Option ℤ) → DatapathStatusModel → DatapathStatsModel → String → Fetched String
unfolding rule_hit_lines
render_human_stats_lines int datapath stats heading =
    and_fetch (rule_hit_lines int stats.rule_hits) λ rules. fetched (
      join "\n" (
        ((heading <> ": " <> on_option datapath.state "unknown" (λ s. s))
          ∷ ("  socket: " <> datapath.socket_path)
          ∷ ("  rx_packets: " <> decimal stats.rx_packets)
          ∷ ("  tx_packets: " <> decimal stats.tx_packets)
          ∷ ("  drop_packets: " <> decimal stats.drop_packets)
          ∷ ("  drop_parse_errors: " <> decimal stats.drop_parse_errors)
          ∷ ("  drop_no_match: " <> decimal stats.drop_no_match)
          ∷ ("  rx_bursts: " <> decimal stats.rx_bursts)
          ∷ ("  tx_bursts: " <> decimal stats.tx_bursts)
          ∷ ("  unsent_packets: " <> decimal stats.unsent_packets)
          ∷ [])
        ++ rules))

unfoldable pub render_human_stats :
    (String → Option ℤ) → DatapathStatsResponseModel → Fetched String
unfolding render_human_stats_lines
render_human_stats int payload =
    render_human_stats_lines int payload.datapath payload.stats "datapath stats"

unfoldable pub render_human_stats_reset :
    CharTable → (String → Option ℤ) → DatapathStatsResetResponseModel → Fetched String
unfolding render_human_stats_lines
render_human_stats_reset t int payload =
    and_fetch (render_human_stats_lines int payload.datapath payload.stats "post-reset counters")
      λ counters.
        fetched (join "\n" (("datapath stats reset: " <> payload.message) ∷ splitlines t counters))

unfoldable pub render_human_datapath_control : String → DatapathControlResponseModel → String
render_human_datapath_control action payload =
    let d = payload.datapath in
    join "\n" (
      (("datapath " <> action <> ": " <> payload.message)
        ∷ ("  state: " <> on_option d.state "unknown" (λ s. s))
        ∷ ("  socket: " <> d.socket_path)
        ∷ ("  reachable: " <> yes_no d.reachable)
        ∷ ("  ports_ready: " <> yes_no d.ports_ready)
        ∷ ("  paused: " <> yes_no d.paused)
        ∷ [])
      ++ line_of_text "  message: " d.message)

-- The human form of `render_topology_result`.
unfoldable pub human_topology_result : TopologyOperationResponseModel → String
human_topology_result payload = join "\n" (
    (("topology " <> payload.operation <> ": " <> payload.message)
      ∷ ("  applied: " <> yes_no payload.applied)
      ∷ ("  datapath_running: " <> yes_no payload.datapath_running)
      ∷ [])
    ++ (line_of (λ s. "  topology: " <> s) payload.topology_name
        ++ (line_of (λ s. "  config_path: " <> s) payload.config_path
            ++ line_of (λ s. "  datapath_namespace: " <> s) payload.datapath_namespace)))

module _ {W : Type 0} (services : Services W) where
  unfoldable pub render_status : DatapathStatusResponseModel → Bool → String
  unfolding render_human_status
  render_status payload json_output =
      if json_output then services.dump_status payload else render_human_status payload

  unfoldable pub render_stats :
      (String → Option ℤ) → DatapathStatsResponseModel → Bool → Fetched String
  unfolding render_human_stats
  render_stats int payload json_output =
      if json_output then fetched (services.dump_stats payload) else render_human_stats int payload

  unfoldable pub render_stats_reset :
      CharTable → (String → Option ℤ) → DatapathStatsResetResponseModel → Bool → Fetched String
  unfolding render_human_stats_reset
  render_stats_reset t int payload json_output =
      if json_output
      then fetched (services.dump_reset payload)
      else render_human_stats_reset t int payload

  unfoldable pub render_datapath_control : String → DatapathControlResponseModel → Bool → String
  unfolding render_human_datapath_control
  render_datapath_control action payload json_output =
      if json_output
      then services.dump_control payload
      else render_human_datapath_control action payload

  unfoldable pub render_topology_result : TopologyOperationResponseModel → Bool → String
  unfolding human_topology_result
  render_topology_result payload json_output =
      if json_output then services.dump_topology payload else human_topology_result payload
