-- ===== src/Config/Lcores/Parsed.antt =====
-- The identifiers that an lcore list is read as.
use pktlab.Base.{
  ℕ, zero, suc, ◌+◌, ◌-◌, ◌≤◌, ◌<◌, String, ◌≡◌, refl, true, false, ◌||◌, some, List, [], ◌∷◌,
  arith, Bool-cases, inl, inr, ◌==◌, is_nil, length, ◌↔◌, CharTable, isdigit, split, partition,
}
use mathlib.Core.Path.{subst}
use pktlab.Effect.{ok, and_then-eq-ok}
use pktlab.Config.{ValidationIssue}
use pktlab.Config.Lcores.{
  range_from, contains_number, insert_sorted, sorted_set, strip_tokens, Token, cpus, refused,
  read_token, read_tokens, finish, parse_lcore_spec,
}

-- No identifier occurs twice.
abbrev pub IsDistinct : List ℕ → Type 0
IsDistinct [] = Unit
IsDistinct (x ∷ xs) = (contains_number x xs ≡ false) × IsDistinct xs

abbrev Ascends : ℕ → List ℕ → Type 0
Ascends low [] = Unit
Ascends low (x ∷ xs) = (low ≤ x) × Ascends (suc x) xs

contains-Ascends :
    (n low : ℕ) (xs : List ℕ) → Ascends low xs → n < low → contains_number n xs ≡ false
unfolding contains_number
contains-Ascends n low [] h lt = refl
contains-Ascends n low (x ∷ xs) h lt = ground (arith, contains-Ascends n (suc x) xs h.1)

insert_sorted-Ascends :
    (n low : ℕ) (xs : List ℕ) → low ≤ n → Ascends low xs → Ascends low (insert_sorted n xs)
unfolding insert_sorted
insert_sorted-Ascends n low [] l h = (l, tt)
insert_sorted-Ascends n low (x ∷ xs) l h = ground (arith, insert_sorted-Ascends n (suc x) xs)

sorted_set-Ascends : (xs : List ℕ) → Ascends 0 (sorted_set xs)
unfolding sorted_set
sorted_set-Ascends [] = tt
sorted_set-Ascends (n ∷ ns) =
    insert_sorted-Ascends n 0 (sorted_set ns) (omega arith) (sorted_set-Ascends ns)

Ascends-IsDistinct : (low : ℕ) (xs : List ℕ) → Ascends low xs → IsDistinct xs
Ascends-IsDistinct low [] h = tt
Ascends-IsDistinct low (x ∷ xs) h =
    (contains-Ascends x (suc x) xs h.1 (omega arith), Ascends-IsDistinct (suc x) xs h.1)

contains-insert_sorted :
    (k n : ℕ) (xs : List ℕ)
    → contains_number k (insert_sorted n xs) ≡ (n == k || contains_number k xs)
unfolding contains_number insert_sorted
contains-insert_sorted k n [] = refl
contains-insert_sorted k n (x ∷ xs) = ground (arith, contains-insert_sorted k n xs)

-- The sorted set has the members of the list.
pub contains-sorted_set :
    (k : ℕ) (xs : List ℕ) → contains_number k (sorted_set xs) ≡ contains_number k xs
unfolding contains_number sorted_set
contains-sorted_set k [] = refl
contains-sorted_set k (x ∷ xs) =
    ground (arith, contains-insert_sorted k x (sorted_set xs), contains-sorted_set k xs)

length-insert_sorted-le : (n : ℕ) (xs : List ℕ) → length (insert_sorted n xs) ≤ suc (length xs)
unfolding insert_sorted
length-insert_sorted-le n [] = omega arith
length-insert_sorted-le n (x ∷ xs) = ground (arith, length-insert_sorted-le n xs)

length-insert_sorted_old :
    (n low : ℕ) (xs : List ℕ)
    → Ascends low xs
    → contains_number n xs ≡ true
    → length (insert_sorted n xs) ≡ length xs
unfolding insert_sorted contains_number
length-insert_sorted_old n low [] h c = cc
length-insert_sorted_old n low (x ∷ xs) h c =
    ground (arith, length-insert_sorted_old n (suc x) xs h.1, contains-Ascends n (suc x) xs h.1)

length-sorted_set-le : (xs : List ℕ) → length (sorted_set xs) ≤ length xs
unfolding sorted_set
length-sorted_set-le [] = omega arith
length-sorted_set-le (n ∷ ns) =
    omega (arith, length-insert_sorted-le n (sorted_set ns), length-sorted_set-le ns)

-- A list as long as its set repeats nothing.
pub same_length-IsDistinct : (xs : List ℕ) → length xs ≡ length (sorted_set xs) → IsDistinct xs
unfolding sorted_set
same_length-IsDistinct [] h = tt
same_length-IsDistinct (n ∷ ns) h = (
  elim (Bool-cases (contains_number n ns)) [
    | inl old ↦ absurd (
        omega (
          arith,
          length-insert_sorted_old n 0 (sorted_set ns) (sorted_set-Ascends ns)
              (rw contains-sorted_set old),
          length-sorted_set-le ns,
        ))
    | inr new ↦ new
  ],
  same_length-IsDistinct ns
      (omega (arith, length-insert_sorted-le n (sorted_set ns), length-sorted_set-le ns)),
)

finish-IsDistinct : (path : String) (token : Token) → IsDistinct (finish path token).0
unfolding contains_number
finish-IsDistinct path (refused issues) = (refl, tt)
finish-IsDistinct path (cpus ns) = elim (Bool-cases (length ns == length (sorted_set ns))) [
  | inl e ↦ rw e (same_length-IsDistinct ns (ground (arith, e)))
  | inr e ↦ rw e (Ascends-IsDistinct 0 (sorted_set ns) (sorted_set-Ascends ns))
]

-- Whatever the text, the identifiers that the parse returns are distinct, with an issue or not.
pub parse_lcore_spec-IsDistinct :
    (t : CharTable) (path value : String) (ids : List ℕ) (issues : List ValidationIssue)
    → parse_lcore_spec t path value ≡ ok (ids, issues)
    → IsDistinct ids
unfolding parse_lcore_spec
parse_lcore_spec-IsDistinct t path value ids issues h =
    elim (Bool-cases (is_nil (strip_tokens t (split b',' value)))) [
      | inl e ↦ unfold contains_number in ground (arith, e)
      | inr e ↦
          let (token, read, done) =
            and_then-eq-ok (read_tokens t path (strip_tokens t (split b',' value)) [])
              (λ token. ok (finish path token)) (rw e at h) in
          subst (λ r. IsDistinct r.0) {x = finish path token} {y = (ids, issues)} (cc done)
            (finish-IsDistinct path token)
    ]

contains-range_from :
    (k start count : ℕ)
    → (contains_number k (range_from start count) ≡ true) ↔ ((start ≤ k) × (k < start + count))
unfolding contains_number range_from
contains-range_from k start zero = (λ h. absurd (ground arith), λ h. absurd (omega arith))
contains-range_from k start (suc count) =
    let ih = contains-range_from k (start + 1) count in
    (λ h. ground (arith, ih), λ h. ground (arith, ih))

-- A token "a-b" of digits with a ≤ b stands for exactly the identifiers from a to b.
pub read_token-range :
    (t : CharTable) (path token a b : String) (m n : ℕ)
    → partition b'-' token ≡ some (a, b)
    → isdigit t a ≡ true
    → isdigit t b ≡ true
    → t.int_of a ≡ some m
    → t.int_of b ≡ some n
    → m ≤ n
    → (ns : List ℕ) × (read_token t path token ≡ ok (cpus ns))
      × ((k : ℕ) → (contains_number k ns ≡ true) ↔ ((m ≤ k) × (k ≤ n)))
unfolding read_token
read_token-range t path token a b m n cut da db ia ib le = (
  range_from m (n + 1 - m),
  ground (arith, cut, da, db, ia, ib),
  λ k.
      let r = contains-range_from k m (n + 1 - m) in
      (λ h. omega (arith, r.0 h), λ h. r.1 (omega arith)),
)
