-- ===== src/Config/Runtime/Bounds.antt =====
-- What an accepted datapath runtime profile satisfies, and which requests are refused.
use pktlab.Base.{List, ℕ, ◌≡◌, true, List, Bool-cases, inl, inr, is_nil, CharTable}
use pktlab.Effect.{ok, and_then-eq-ok}
use pktlab.Types.{DpdkProcessConfigModel, EffectiveDpdkRuntimeModel}
use pktlab.Config.{ValidationIssue}
use pktlab.Config.Runtime.{
  resolve_effective_dpdk_runtime, derive_effective_dpdk_runtime, refuse_issues,
}
use pktlab.Config.Runtime.Resolved.{IsAccepted, resolve-Resolved, Resolved-IsAccepted}

derive-resolved :
    (t : CharTable) (q : DpdkProcessConfigModel) (p : ℕ) (m : EffectiveDpdkRuntimeModel)
    → derive_effective_dpdk_runtime t q p ≡ ok m
    → (issues : List ValidationIssue) × (resolve_effective_dpdk_runtime t q p "processes.dpdkd"
        ≡ ok (m, issues))
      × (is_nil issues ≡ true)
unfolding derive_effective_dpdk_runtime
derive-resolved t q p m h =
    let (r, resolved, h') =
      and_then-eq-ok (resolve_effective_dpdk_runtime t q p "processes.dpdkd") refuse_issues h in
    elim (Bool-cases (is_nil r.1)) [
      | inl e ↦ (r.1, cc (resolved, rw e at h'), e)
      | inr e ↦ absurd (cc (rw e at h'))
    ]

-- Every profile that `derive_effective_dpdk_runtime` returns is within every limit of the
-- controller: lcores, queues, bursts, mempool and hugepages.
pub derive_effective_dpdk_runtime-IsAccepted :
    (t : CharTable) (q : DpdkProcessConfigModel) (p : ℕ) (m : EffectiveDpdkRuntimeModel)
    → derive_effective_dpdk_runtime t q p ≡ ok m
    → IsAccepted p m
derive_effective_dpdk_runtime-IsAccepted t q p m h =
    let (issues, resolved, empty) = derive-resolved t q p m h in
    Resolved-IsAccepted t q p "processes.dpdkd" m issues
      (resolve-Resolved t q p "processes.dpdkd" m issues resolved) empty
