-- ===== src/Config/Runtime/Rounding.antt =====
-- The rounding helpers of ctrld/pktlab_ctrld/config/validation.py: `_round_up_power_of_two` and
-- `_round_up_to_multiple`.
use native.Mathlib.Nat.{pow-suc, pow-le-pow_right, div-add-mod', mod-lt, mul-mod_left, one-le-pow}
use native.Mathlib.Decide.{dec_lt}
use pktlab.Base.{
  ℕ, zero, suc, ◌+◌, ◌-◌, ◌*◌, ◌/◌, ◌%◌, ◌^◌, ◌≤◌, ◌<◌, ◌≡◌, refl, arith, Bool-cases, inl, inr, leb,
  max,
}
use pktlab.Config.Runtime.{bit_length_from, bit_length, round_up_power_of_two, round_up_to_multiple}

bit_length_from-zero : (f : ℕ) → bit_length_from f 0 ≡ 0
unfolding bit_length_from
bit_length_from-zero zero = refl
bit_length_from-zero (suc f) = refl

bit_length_from_bounds :
    (f n : ℕ) → n ≤ f → (n < 2 ^ bit_length_from f n) × (0 < n → 2 ^ bit_length_from f n ≤ 2 * n)
unfolding bit_length_from
bit_length_from_bounds zero n h = ground arith
bit_length_from_bounds (suc f) n h = ground (
  arith,
  bit_length_from_bounds f (n / 2),
  bit_length_from-zero f,
  pow-suc 2 (bit_length_from f (n / 2)),
)

le_of_lt_suc : {a b : ℕ} → a < suc b → a ≤ b
le_of_lt_suc h = omega arith

pow2_reflects_lt : (a b : ℕ) → 2 ^ a < 2 ^ b → a < b
pow2_reflects_lt a b h = elim (dec_lt a b) [
  | yes p ↦ p
  | no p ↦
      absurd (omega (arith, pow-le-pow_right {n = 2} (omega arith) {i = b} {j = a} (omega arith)))
]

-- The rounded value is a power of two, is no smaller than the value and is less than twice the
-- value, or than 2 if the value is 0.
pub round_up_power_of_two_bounds :
    (v : ℕ)
    → (v ≤ round_up_power_of_two v)
      × (round_up_power_of_two v < 2 * max v 1)
      × ((k : ℕ) × (round_up_power_of_two v ≡ 2 ^ k))
unfolding round_up_power_of_two bit_length
round_up_power_of_two_bounds v = elim (Bool-cases (leb v 1)) [
  | inl small ↦ rw small (ground arith, ground arith, (0, refl))
  | inr large ↦ rw large (
    ground (arith, bit_length_from_bounds (v - 1) (v - 1) (omega arith)),
    ground (arith, bit_length_from_bounds (v - 1) (v - 1) (omega arith)),
    (bit_length_from (v - 1) (v - 1), refl),
  )
]

-- No smaller power of two will do: one that reaches the value is at least the rounded value.
pub round_up_power_of_two_least : (v j : ℕ) → v ≤ 2 ^ j → round_up_power_of_two v ≤ 2 ^ j
unfolding round_up_power_of_two bit_length
round_up_power_of_two_least v j h = elim (Bool-cases (leb v 1)) [
  | inl small ↦ rw small (one-le-pow j 2 (omega arith))
  | inr large ↦ rw large (
      pow-le-pow_right {n = 2} (omega arith) (
        le_of_lt_suc (
          pow2_reflects_lt (bit_length_from (v - 1) (v - 1)) (suc j)
            (ground (arith, bit_length_from_bounds (v - 1) (v - 1) (omega arith), pow-suc 2 j)))))
]

-- The rounded value is a multiple, no smaller than the value and by less than one multiple larger.
pub round_up_to_multiple_bounds :
    (v m : ℕ)
    → 0 < m
    → (v ≤ round_up_to_multiple v m)
      × (round_up_to_multiple v m < v + m)
      × (round_up_to_multiple v m % m ≡ 0)
unfolding round_up_to_multiple
round_up_to_multiple_bounds v m h = (
  omega (arith, div-add-mod' (v + m - 1) m, mod-lt (v + m - 1) h),
  omega (arith, div-add-mod' (v + m - 1) m, mod-lt (v + m - 1) h),
  mul-mod_left ((v + m - 1) / m) m,
)
