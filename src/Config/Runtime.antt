-- ===== src/Config/Runtime.antt =====
-- The effective datapath runtime profile: `_derive_effective_dpdk_runtime` and the arithmetic below
-- it in ctrld/pktlab_ctrld/config/validation.py.
pub mod Rounding
pub mod Resolved
pub mod Bounds
use pktlab.Base.{
  ℕ, zero, suc, ◌+◌, ◌-◌, ◌*◌, ◌/◌, ◌%◌, ◌^◌, min, max, String, Bool, true, false, not, ◌&&◌, ◌||◌,
  List, [], ◌∷◌, ◌++◌, ltb, leb, ◌==◌, if◌then◌else◌, ◌<>◌, decimal, is_nil, length, or_number,
  or_text, CharTable,
}
use pktlab.Error.{
  ErrorCode, topology_validation_error, validation_error, Exn, invalid_model, typed, other,
}
use pktlab.Effect.{Outcome, ok, raised, and_then}
use pktlab.Types.{DpdkProcessConfigModel, EffectiveDpdkRuntimeModel, fits_effective_model}
use pktlab.Config.{ValidationIssue, issue_if, issues_to_dicts}
use pktlab.Config.Lcores.{parse_lcore_spec}

abbrev pub default_lcores : String
default_lcores = "1"

abbrev pub default_burst_size : ℕ
default_burst_size = 32

abbrev pub default_queue_size : ℕ
default_queue_size = 256

abbrev pub default_hugepage_size_mb : ℕ
default_hugepage_size_mb = 2

abbrev pub default_hugepages_floor_mb : ℕ
default_hugepages_floor_mb = 256

abbrev pub max_lcore_count : ℕ
max_lcore_count = 8

abbrev pub max_burst_size : ℕ
max_burst_size = 256

abbrev pub max_queue_size : ℕ
max_queue_size = 4096

abbrev pub max_mempool_size : ℕ
max_mempool_size = 65536

abbrev pub max_hugepages_mb : ℕ
max_hugepages_mb = 1024

abbrev pub min_mempool_size : ℕ
min_mempool_size = 2048

abbrev pub mempool_headroom_factor : ℕ
mempool_headroom_factor = 4

abbrev pub mbuf_memory_estimate_bytes : ℕ
mbuf_memory_estimate_bytes = 4096

abbrev pub fixed_runtime_overhead_mb : ℕ
fixed_runtime_overhead_mb = 64

-- `int.bit_length`; the fuel is at least the number.
unfoldable pub bit_length_from : ℕ → ℕ → ℕ
bit_length_from zero n = 0
bit_length_from (suc fuel) n =
    let rest = bit_length_from fuel (n / 2) in if n == 0 then 0 else suc rest

unfoldable pub bit_length : ℕ → ℕ
unfolding bit_length_from
bit_length n = bit_length_from n n

unfoldable pub round_up_power_of_two : ℕ → ℕ
round_up_power_of_two value = if leb value 1 then 1 else 2 ^ bit_length (value - 1)

unfoldable pub round_up_to_multiple : ℕ → ℕ → ℕ
round_up_to_multiple value multiple = (value + multiple - 1) / multiple * multiple

-- The multiple of `unit` that is nearest to a number, of two the one that is even in units.
unfoldable pub round_half_even : ℕ → ℕ → ℕ
round_half_even n unit =
    let q = n / unit in
    let r = n % unit in
    if ltb unit (2 * r) || (2 * r == unit && q % 2 == 1) then (q + 1) * unit else q * unit

-- The OverflowError of a division of integers.
abbrev pub too_large : Exn
too_large = other "integer division result too large for a float"

-- `math.ceil(n / (1024 * 1024))` where n has more than 53 bits. The quotient is a float, which has 53
-- bits and is below 2 ^ 1024; dividing by a power of two rounds no more than the bits of `n` do.
unfoldable pub ceil_mb_rounded : ℕ → Outcome ℕ
ceil_mb_rounded n =
    let rounded = round_half_even n (2 ^ (bit_length n - 53)) in
    if ltb rounded (2 ^ 1024 * 1048576)
    then ok ((rounded + 1048575) / 1048576)
    else raised too_large

-- `math.ceil(n / (1024 * 1024))`; a number below 2 ^ 53 is a float.
unfoldable pub ceil_mb : ℕ → Outcome ℕ
ceil_mb n = if ltb n 9007199254740992 then ok ((n + 1048575) / 1048576) else ceil_mb_rounded n

-- `math.ceil(mempool_size * MBUF_MEMORY_ESTIMATE_BYTES / (1024 * 1024))`
abbrev pub estimated_mbuf_memory_mb : ℕ → Outcome ℕ
estimated_mbuf_memory_mb mempool_size = ceil_mb (mempool_size * mbuf_memory_estimate_bytes)

unfoldable pub recommended_hugepages_mb : ℕ → Outcome ℕ
unfolding round_up_to_multiple
recommended_hugepages_mb mempool_size =
    and_then (estimated_mbuf_memory_mb mempool_size) λ estimated. ok (
      round_up_to_multiple (max default_hugepages_floor_mb (fixed_runtime_overhead_mb + estimated))
        default_hugepage_size_mb)

-- The requested sizes with the defaults put in.
pub record Sizes : Type 0 where
  pub lcore_count : ℕ
  pub rx_queue_size : ℕ
  pub tx_queue_size : ℕ
  pub burst_size : ℕ
  pub recommended_mempool_size : ℕ
  pub mempool_size : ℕ
  pub recommended_hugepages_mb : ℕ
  pub hugepages_mb : ℕ

unfoldable pub recommended_mempool_size : ℕ → ℕ → ℕ → ℕ
recommended_mempool_size port_count rx tx =
    round_up_power_of_two (max min_mempool_size (port_count * (rx + tx) * mempool_headroom_factor))

unfoldable pub resolve_sizes : DpdkProcessConfigModel → ℕ → List ℕ → Outcome Sizes
resolve_sizes requested port_count lcore_ids =
    let rx = or_number requested.rx_queue_size default_queue_size in
    let tx = or_number requested.tx_queue_size default_queue_size in
    let recommended = recommended_mempool_size port_count rx tx in
    let mempool = or_number requested.mempool_size recommended in
    and_then (recommended_hugepages_mb mempool) λ recommended_hugepages. ok (record {
      lcore_count = if is_nil lcore_ids then 1 else length lcore_ids;
      rx_queue_size = rx;
      tx_queue_size = tx;
      burst_size = or_number requested.burst_size default_burst_size;
      recommended_mempool_size = recommended;
      mempool_size = mempool;
      recommended_hugepages_mb = recommended_hugepages;
      hugepages_mb = or_number requested.hugepages_mb recommended_hugepages;
    })

-- The issues of the sizes, in the order in which the code appends them.
unfoldable pub size_issues : String → ℕ → Sizes → List ValidationIssue
size_issues prefix port_count s =
    issue_if (ltb max_lcore_count s.lcore_count) (prefix <> ".lcores") "oversized_lcore_set" (
      "lcore set resolves to "
      <> decimal s.lcore_count
      <> " lcores; the controller caps this at "
      <> decimal max_lcore_count
      <> " for the MVP")
    ++ (issue_if (ltb max_queue_size s.rx_queue_size) (prefix <> ".rx_queue_size") "oversized_queue"
          ("rx_queue_size "
            <> decimal s.rx_queue_size
            <> " exceeds the controller limit of "
            <> decimal max_queue_size)
        ++ (issue_if (ltb max_queue_size s.tx_queue_size) (prefix <> ".tx_queue_size")
              "oversized_queue"
              ("tx_queue_size "
                <> decimal s.tx_queue_size
                <> " exceeds the controller limit of "
                <> decimal max_queue_size)
            ++ (issue_if (ltb max_burst_size s.burst_size) (prefix <> ".burst_size")
                  "oversized_burst"
                  ("burst_size "
                    <> decimal s.burst_size
                    <> " exceeds the controller limit of "
                    <> decimal max_burst_size)
                ++ (issue_if (ltb (min s.rx_queue_size s.tx_queue_size) s.burst_size)
                      (prefix <> ".burst_size") "burst_exceeds_queue"
                      "burst_size must not exceed either queue size"
                    ++ (issue_if (ltb s.mempool_size s.recommended_mempool_size)
                          (prefix <> ".mempool_size") "undersized_mempool"
                          ("mempool_size "
                            <> decimal s.mempool_size
                            <> " is too small for "
                            <> decimal port_count
                            <> " ports and the configured queues; minimum recommended value is "
                            <> decimal s.recommended_mempool_size)
                        ++ (issue_if (ltb max_mempool_size s.mempool_size)
                              (prefix <> ".mempool_size") "oversized_mempool"
                              ("mempool_size "
                                <> decimal s.mempool_size
                                <> " exceeds the controller limit of "
                                <> decimal max_mempool_size)
                            ++ (issue_if (not (s.hugepages_mb % default_hugepage_size_mb == 0))
                                  (prefix <> ".hugepages_mb") "invalid_hugepage_multiple"
                                  ("hugepages_mb must be a multiple of "
                                    <> decimal default_hugepage_size_mb
                                    <> " MB")
                                ++ (issue_if (ltb s.hugepages_mb s.recommended_hugepages_mb)
                                      (prefix <> ".hugepages_mb") "undersized_hugepages"
                                      ("hugepages_mb "
                                        <> decimal s.hugepages_mb
                                        <> " is below the controller floor of "
                                        <> decimal s.recommended_hugepages_mb
                                        <> " MB for the current mempool and safety margin")
                                    ++ issue_if (ltb max_hugepages_mb s.hugepages_mb)
                                        (prefix <> ".hugepages_mb") "oversized_hugepages"
                                        ("hugepages_mb "
                                          <> decimal s.hugepages_mb
                                          <> " exceeds the controller limit of "
                                          <> decimal max_hugepages_mb
                                          <> " MB")))))))))

abbrev pub effective_model : String → ℕ → Sizes → EffectiveDpdkRuntimeModel
effective_model lcores port_count s = record {
  lcores = lcores;
  lcore_count = s.lcore_count;
  hugepage_size_mb = default_hugepage_size_mb;
  hugepages_mb = s.hugepages_mb;
  burst_size = s.burst_size;
  rx_queue_size = s.rx_queue_size;
  tx_queue_size = s.tx_queue_size;
  mempool_size = s.mempool_size;
  port_count = port_count;
}

-- `EffectiveDpdkRuntimeModel(...)`: pydantic refuses values outside the declared constraints.
unfoldable pub build_effective_model : EffectiveDpdkRuntimeModel → Outcome EffectiveDpdkRuntimeModel
build_effective_model m =
    if fits_effective_model m then ok m else raised (invalid_model "EffectiveDpdkRuntimeModel")

-- `_derive_effective_dpdk_runtime`: the model and the issues that it appends.
unfoldable pub resolve_effective_dpdk_runtime :
    CharTable
    → DpdkProcessConfigModel
    → ℕ
    → String
    → Outcome (EffectiveDpdkRuntimeModel × List ValidationIssue)
resolve_effective_dpdk_runtime t requested port_count prefix =
    let lcores = or_text requested.lcores default_lcores in
    and_then (parse_lcore_spec t (prefix <> ".lcores") lcores) λ (lcore_ids, lcore_issues).
      and_then (resolve_sizes requested port_count lcore_ids) λ s.
        and_then (build_effective_model (effective_model lcores port_count s))
          λ m. ok (m, lcore_issues ++ size_issues prefix port_count s)

-- `if issues: raise`, else the model.
abbrev pub refuse_issues :
    EffectiveDpdkRuntimeModel × List ValidationIssue → Outcome EffectiveDpdkRuntimeModel
refuse_issues (effective, issues) =
    if is_nil issues
    then ok effective
    else raised (
        typed (
          validation_error "effective datapath runtime config is invalid" topology_validation_error
            (issues_to_dicts issues)))

-- `derive_effective_dpdk_runtime`
unfoldable pub derive_effective_dpdk_runtime :
    CharTable → DpdkProcessConfigModel → ℕ → Outcome EffectiveDpdkRuntimeModel
derive_effective_dpdk_runtime t requested port_count =
    and_then (resolve_effective_dpdk_runtime t requested port_count "processes.dpdkd") refuse_issues
