-- ===== src/Tests/Sizing.antt =====
-- Examples of datapath profiles and of lcore lists.
use pktlab.Base.{
  ℕ, ◌≤◌, ◌<◌, ◌*◌, ◌^◌, max, ◌≡◌, refl, true, some, [], ◌∷◌, split, partition, isdigit, strip,
}
use pktlab.Effect.{ok}
use pktlab.Types.{DpdkProcessConfigModel, EffectiveDpdkRuntimeModel, fits_effective_model}
use pktlab.Config.Lcores.{
  parse_lcore_spec, read_token, read_tokens, strip_tokens, sorted_set, range_from,
}
use pktlab.Config.Lcores.Parsed.{IsDistinct, parse_lcore_spec-IsDistinct}
use pktlab.Config.Runtime.{
  round_half_even, derive_effective_dpdk_runtime, resolve_effective_dpdk_runtime,
  build_effective_model, resolve_sizes, size_issues, recommended_mempool_size,
  recommended_hugepages_mb, ceil_mb, round_up_power_of_two, round_up_to_multiple, bit_length,
}
use pktlab.Config.Runtime.Resolved.{IsAccepted}
use pktlab.Config.Runtime.Rounding.{round_up_power_of_two_bounds}
use pktlab.Config.Runtime.Bounds.{derive_effective_dpdk_runtime-IsAccepted}
use pktlab.Tests.{ascii, plain_request, plain_profile}

-- A request for the lcores 2 to 5.
abbrev pub ranged : DpdkProcessConfigModel
ranged = record plain_request { lcores = some "2-5" }

abbrev pub ranged_profile : EffectiveDpdkRuntimeModel
ranged_profile = record plain_profile { lcores = "2-5"; lcore_count = 4 }

pub parsed_range :
    parse_lcore_spec ascii "processes.dpdkd.lcores" "2-5" ≡ ok (2 ∷ 3 ∷ 4 ∷ 5 ∷ [], [])
unfolding parse_lcore_spec read_token read_tokens strip_tokens sorted_set split partition isdigit
    strip range_from
parsed_range = refl

derived : derive_effective_dpdk_runtime ascii ranged 2 ≡ ok ranged_profile
unfolding derive_effective_dpdk_runtime resolve_effective_dpdk_runtime build_effective_model
    resolve_sizes size_issues fits_effective_model recommended_mempool_size recommended_hugepages_mb
    round_up_power_of_two round_up_to_multiple bit_length ceil_mb
derived = rw parsed_range refl

derive_effective_dpdk_runtime-IsAccepted_example : IsAccepted 2 ranged_profile
derive_effective_dpdk_runtime-IsAccepted_example =
    derive_effective_dpdk_runtime-IsAccepted ascii ranged 2 ranged_profile derived

parse_lcore_spec-IsDistinct_example : IsDistinct (2 ∷ 3 ∷ 4 ∷ 5 ∷ [])
parse_lcore_spec-IsDistinct_example =
    parse_lcore_spec-IsDistinct ascii "processes.dpdkd.lcores" "2-5" (2 ∷ 3 ∷ 4 ∷ 5 ∷ []) []
      parsed_range

cut : partition b'-' "2-5" ≡ some ("2", "5")
unfolding partition
cut = refl

two_is_digit : isdigit ascii "2" ≡ true
unfolding isdigit
two_is_digit = refl

five_is_digit : isdigit ascii "5" ≡ true
unfolding isdigit
five_is_digit = refl

round_up_power_of_two_bounds_example :
    (3000 ≤ round_up_power_of_two 3000)
    × (round_up_power_of_two 3000 < 2 * max 3000 1)
    × ((k : ℕ) × (round_up_power_of_two 3000 ≡ 2 ^ k))
round_up_power_of_two_bounds_example = round_up_power_of_two_bounds 3000

-- Of two multiples of 4 that are equally near, the even one is taken.
ties_to_even :
    (round_half_even 10 4 ≡ 8) × (round_half_even 14 4 ≡ 16) × (round_half_even 11 4 ≡ 12)
unfolding round_half_even
ties_to_even = (refl, refl, refl)
