-- ===== src/Config/Runtime/Resolved.antt =====
-- What a resolution of the datapath runtime profile consists of, and what it satisfies where it
-- has no issue.
use pktlab.Base.{
  or_number, ℕ, ◌+◌, ◌*◌, ◌/◌, ◌%◌, ◌≤◌, min, max, String, ◌≡◌, refl, true, false, not, List, ◌++◌,
  arith, Bool-cases, inl, inr, ◌==◌, ltb, is_nil, ◌<>◌, or_text, CharTable,
}
use pktlab.Effect.{ok, and_then-eq-ok}
use pktlab.Types.{DpdkProcessConfigModel, EffectiveDpdkRuntimeModel, fits_effective_model}
use pktlab.Config.{ValidationIssue}
use pktlab.Config.Names.Distinct.{append_nil, issue_if_nil}
use pktlab.Config.Lcores.{parse_lcore_spec}
use pktlab.Config.Runtime.{
  Sizes, resolve_sizes, size_issues, effective_model, build_effective_model,
  resolve_effective_dpdk_runtime, recommended_mempool_size, recommended_hugepages_mb, ceil_mb,
  round_up_to_multiple, default_lcores,
}
use pktlab.Config.Runtime.Rounding.{round_up_power_of_two_bounds, round_up_to_multiple_bounds}

-- The limits that the controller sets for a profile on `ports` ports.
pub record IsAccepted (ports : ℕ) (m : EffectiveDpdkRuntimeModel) : Type 0 where
  pub lcores_low : 1 ≤ m.lcore_count
  pub lcores_high : m.lcore_count ≤ 8
  pub ports_kept : m.port_count ≡ ports
  pub ports_low : 1 ≤ ports
  pub rx_high : m.rx_queue_size ≤ 4096
  pub tx_high : m.tx_queue_size ≤ 4096
  pub burst_low : 1 ≤ m.burst_size
  pub burst_high : m.burst_size ≤ 256
  pub burst_rx : m.burst_size ≤ m.rx_queue_size
  pub burst_tx : m.burst_size ≤ m.tx_queue_size
  pub mempool_floor : 2048 ≤ m.mempool_size
  pub mempool_need : ports * (m.rx_queue_size + m.tx_queue_size) * 4 ≤ m.mempool_size
  pub mempool_high : m.mempool_size ≤ 65536
  pub hugepages_even : m.hugepages_mb % 2 ≡ 0
  pub hugepages_floor : 256 ≤ m.hugepages_mb
  -- the mempool's memory at 4096 bytes a buffer, beside 64 MB of fixed overhead
  pub hugepages_need : 64 * 1048576 + m.mempool_size * 4096 ≤ m.hugepages_mb * 1048576
  pub hugepages_high : m.hugepages_mb ≤ 1024

-- No issue of the sizes means that every test failed.
record Passes (s : Sizes) : Type 0 where
  lcores : ltb 8 s.lcore_count ≡ false
  rx : ltb 4096 s.rx_queue_size ≡ false
  tx : ltb 4096 s.tx_queue_size ≡ false
  burst : ltb 256 s.burst_size ≡ false
  queues : ltb (min s.rx_queue_size s.tx_queue_size) s.burst_size ≡ false
  small_pool : ltb s.mempool_size s.recommended_mempool_size ≡ false
  large_pool : ltb 65536 s.mempool_size ≡ false
  multiple : not (s.hugepages_mb % 2 == 0) ≡ false
  small_pages : ltb s.hugepages_mb s.recommended_hugepages_mb ≡ false
  large_pages : ltb 1024 s.hugepages_mb ≡ false

size_issues-Passes :
    (prefix : String) (ports : ℕ) (s : Sizes)
    → is_nil (size_issues prefix ports s) ≡ true
    → Passes s
unfolding size_issues
size_issues-Passes prefix ports s h =
    let a = append_nil _ _ h in
    let b = append_nil _ _ a.1 in
    let c = append_nil _ _ b.1 in
    let d = append_nil _ _ c.1 in
    let e = append_nil _ _ d.1 in
    let f = append_nil _ _ e.1 in
    let g = append_nil _ _ f.1 in
    let i = append_nil _ _ g.1 in
    let j = append_nil _ _ i.1 in
    record {
      lcores = issue_if_nil _ _ _ _ a.0;
      rx = issue_if_nil _ _ _ _ b.0;
      tx = issue_if_nil _ _ _ _ c.0;
      burst = issue_if_nil _ _ _ _ d.0;
      queues = issue_if_nil _ _ _ _ e.0;
      small_pool = issue_if_nil _ _ _ _ f.0;
      large_pool = issue_if_nil _ _ _ _ g.0;
      multiple = issue_if_nil _ _ _ _ i.0;
      small_pages = issue_if_nil _ _ _ _ j.0;
      large_pages = issue_if_nil _ _ _ _ j.1;
    }

recommended_mempool_size-ge :
    (p rx tx : ℕ)
    → (2048 ≤ recommended_mempool_size p rx tx)
      × (p * (rx + tx) * 4 ≤ recommended_mempool_size p rx tx)
unfolding recommended_mempool_size
recommended_mempool_size-ge p rx tx =
    let b = (round_up_power_of_two_bounds (max 2048 (p * (rx + tx) * 4))).0 in
    (omega (arith, b), omega (arith, b))

recommended_hugepages_mb-ge :
    (n r : ℕ)
    → n ≤ 65536
    → recommended_hugepages_mb n ≡ ok r
    → (256 ≤ r) × (64 * 1048576 + n * 4096 ≤ r * 1048576)
unfolding recommended_hugepages_mb ceil_mb
recommended_hugepages_mb-ge n r low e =
    let m = max 256 (64 + (n * 4096 + 1048575) / 1048576) in
    let b = (round_up_to_multiple_bounds m 2 (omega arith)).0 in
    let exact : ltb (n * 4096) 9007199254740992 ≡ true = ground (arith, low) in
    let same : round_up_to_multiple m 2 ≡ r = cc (rw exact at e) in
    (omega (arith, b, same), omega (arith, b, same))

fits-positive :
    (m : EffectiveDpdkRuntimeModel)
    → fits_effective_model m ≡ true
    → (1 ≤ m.lcore_count) × (1 ≤ m.burst_size) × (1 ≤ m.port_count)
unfolding fits_effective_model
fits-positive m h = (ground arith, ground arith, ground arith)

sizes-IsAccepted :
    (lcores : String) (p : ℕ) (s : Sizes)
    → s.recommended_mempool_size ≡ recommended_mempool_size p s.rx_queue_size s.tx_queue_size
    → recommended_hugepages_mb s.mempool_size ≡ ok s.recommended_hugepages_mb
    → fits_effective_model (effective_model lcores p s) ≡ true
    → Passes s
    → IsAccepted p (effective_model lcores p s)
sizes-IsAccepted lcores p s e e' fit h =
    let pos = fits-positive (effective_model lcores p s) fit in
    let pool = recommended_mempool_size-ge p s.rx_queue_size s.tx_queue_size in
    let pages =
      recommended_hugepages_mb-ge s.mempool_size s.recommended_hugepages_mb
        (ground (arith, h.large_pool)) e' in
    record {
      lcores_low = pos.0;
      lcores_high = ground (arith, h.lcores);
      ports_kept = refl;
      ports_low = pos.2;
      rx_high = ground (arith, h.rx);
      tx_high = ground (arith, h.tx);
      burst_low = pos.1;
      burst_high = ground (arith, h.burst);
      burst_rx = ground (arith, h.queues);
      burst_tx = ground (arith, h.queues);
      mempool_floor = ground (arith, h.small_pool, e, pool);
      mempool_need = ground (arith, h.small_pool, e, pool);
      mempool_high = ground (arith, h.large_pool);
      hugepages_even = ground (arith, h.multiple);
      hugepages_floor = ground (arith, h.small_pages, pages);
      hugepages_need = ground (arith, h.small_pages, pages);
      hugepages_high = ground (arith, h.large_pages);
    }

-- The recommendations that the sizes hold.
sizes-recommended :
    (q : DpdkProcessConfigModel) (p : ℕ) (ids : List ℕ) (s : Sizes)
    → resolve_sizes q p ids ≡ ok s
    → (s.recommended_mempool_size ≡ recommended_mempool_size p s.rx_queue_size s.tx_queue_size)
      × (recommended_hugepages_mb s.mempool_size ≡ ok s.recommended_hugepages_mb)
unfolding resolve_sizes
sizes-recommended q p ids s h =
    let rx = or_number q.rx_queue_size 256 in
    let tx = or_number q.tx_queue_size 256 in
    let mempool = or_number q.mempool_size (recommended_mempool_size p rx tx) in
    let (r, recommended, made) = and_then-eq-ok (recommended_hugepages_mb mempool) _ h in
    (cc made, cc (made, recommended))

build-ok :
    (m r : EffectiveDpdkRuntimeModel)
    → build_effective_model m ≡ ok r
    → (fits_effective_model m ≡ true) × (m ≡ r)
unfolding build_effective_model
build-ok m r h = elim (Bool-cases (fits_effective_model m)) [
  | inl e ↦ (e, ground (arith, e))
  | inr e ↦ absurd (ground (arith, e))
]

-- What a resolution that did not raise consists of.
pub record Resolved (t : CharTable) (q : DpdkProcessConfigModel) (p : ℕ) (prefix : String)
    (m : EffectiveDpdkRuntimeModel) (issues : List ValidationIssue) : Type 0 where
  pub lcore_ids : List ℕ
  pub lcore_issues : List ValidationIssue
  pub parsed :
      parse_lcore_spec t (prefix <> ".lcores") (or_text q.lcores default_lcores)
      ≡ ok (lcore_ids, lcore_issues)
  pub sizes : Sizes
  pub resolved : resolve_sizes q p lcore_ids ≡ ok sizes
  pub fits : fits_effective_model (effective_model (or_text q.lcores default_lcores) p sizes) ≡ true
  pub model : m ≡ effective_model (or_text q.lcores default_lcores) p sizes
  pub all_issues : issues ≡ lcore_issues ++ size_issues prefix p sizes

pub resolve-Resolved :
    (t : CharTable) (q : DpdkProcessConfigModel) (p : ℕ) (prefix : String)
    (m : EffectiveDpdkRuntimeModel) (issues : List ValidationIssue)
    → resolve_effective_dpdk_runtime t q p prefix ≡ ok (m, issues)
    → Resolved t q p prefix m issues
unfolding resolve_effective_dpdk_runtime
resolve-Resolved t q p prefix m issues h =
    let (ids, parsed, h') = and_then-eq-ok _ _ h in
    let (s, sized, h1) = and_then-eq-ok _ _ h' in
    let (r, built, h'') = and_then-eq-ok _ _ h1 in
    let (fit, same) = build-ok _ _ built in
    record {
      lcore_ids = ids.0;
      lcore_issues = ids.1;
      parsed = parsed;
      sizes = s;
      resolved = sized;
      fits = fit;
      model = cc (same, h'');
      all_issues = cc h'';
    }

-- A resolution that raises no issue gives a profile within every limit of the controller.
pub Resolved-IsAccepted :
    (t : CharTable) (q : DpdkProcessConfigModel) (p : ℕ) (prefix : String)
    (m : EffectiveDpdkRuntimeModel) (issues : List ValidationIssue)
    → Resolved t q p prefix m issues
    → is_nil issues ≡ true
    → IsAccepted p m
Resolved-IsAccepted t q p prefix m issues r h =
    let s = r.sizes in
    let recommended = sizes-recommended q p r.lcore_ids s r.resolved in
    let none_left = append_nil r.lcore_issues (size_issues prefix p s) (rw r.all_issues at h) in
    rw r.model (
      sizes-IsAccepted (or_text q.lcores default_lcores) p s recommended.0 recommended.1 r.fits
        (size_issues-Passes prefix p s none_left.1))
