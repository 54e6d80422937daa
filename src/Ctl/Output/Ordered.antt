-- ===== src/Ctl/Output/Ordered.antt =====
-- The order of the rule counts in the human form of the statistics.
use mathlib.Core.List.{Perm}
use mathlib.Core.List.Perm
use pktlab.Base.{
  ℤ, pos, negsuc, ◌≡◌, refl, true, false, Option, none, some, List, [], ◌∷◌, map, String, arith,
  All, Bool-cases, inl, inr, on_option,
}
use pktlab.Ctl.{Fetched, fetched, and_fetch, bad_value, client_error, escaped}
use pktlab.Ctl.Output.{Hit, int_leb, insert_hit, sort_hits, keyed, hit_line, rule_hit_lines}

int_leb-total : (a b : ℤ) → int_leb a b ≡ false → int_leb b a ≡ true
unfolding int_leb
int_leb-total (pos a) (pos b) h = ground arith
int_leb-total (pos a) (negsuc b) h = refl
int_leb-total (negsuc a) (pos b) h = cc h
int_leb-total (negsuc a) (negsuc b) h = ground arith

int_leb_trans : (a b c : ℤ) → int_leb a b ≡ true → int_leb b c ≡ true → int_leb a c ≡ true
unfolding int_leb
int_leb_trans (pos a) (pos b) (pos c) h k = ground arith
int_leb_trans (pos a) (pos b) (negsuc c) h k = cc k
int_leb_trans (pos a) (negsuc b) c h k = cc h
int_leb_trans (negsuc a) (pos b) (pos c) h k = refl
int_leb_trans (negsuc a) (pos b) (negsuc c) h k = cc k
int_leb_trans (negsuc a) (negsuc b) (pos c) h k = refl
int_leb_trans (negsuc a) (negsuc b) (negsuc c) h k = ground arith

-- Every hit is at or below the later ones.
abbrev pub IsSorted : List Hit → Type 0
IsSorted [] = Unit
IsSorted (h ∷ rest) = All (λ x. int_leb h.0 x.0 ≡ true) rest × IsSorted rest

All-trans :
    (h x : Hit) (xs : List Hit)
    → int_leb h.0 x.0 ≡ true
    → All (λ y. int_leb x.0 y.0 ≡ true) xs
    → All (λ y. int_leb h.0 y.0 ≡ true) xs
All-trans h x [] k a = tt
All-trans h x (y ∷ ys) k a = (int_leb_trans h.0 x.0 y.0 k a.0, All-trans h x ys k a.1)

All-insert_hit :
    (P : Hit → Type 0) (h : Hit) (xs : List Hit) → P h → All P xs → All P (insert_hit h xs)
unfolding insert_hit
All-insert_hit P h [] p a = (p, tt)
All-insert_hit P h (x ∷ xs) p a = elim (Bool-cases (int_leb h.0 x.0)) [
  | inl e ↦ rw e (p, a)
  | inr e ↦ rw e (a.0, All-insert_hit P h xs p a.1)
]

insert_hit-IsSorted : (h : Hit) (xs : List Hit) → IsSorted xs → IsSorted (insert_hit h xs)
unfolding insert_hit
insert_hit-IsSorted h [] s = (tt, tt)
insert_hit-IsSorted h (x ∷ xs) s = elim (Bool-cases (int_leb h.0 x.0)) [
  | inl e ↦ rw e ((e, All-trans h x xs e s.0), s)
  | inr e ↦ rw e (
    All-insert_hit (λ y. int_leb x.0 y.0 ≡ true) h xs (int_leb-total h.0 x.0 e) s.0,
    insert_hit-IsSorted h xs s.1,
  )
]

sort_hits-IsSorted : (xs : List Hit) → IsSorted (sort_hits xs)
unfolding sort_hits
sort_hits-IsSorted [] = tt
sort_hits-IsSorted (h ∷ rest) = insert_hit-IsSorted h (sort_hits rest) (sort_hits-IsSorted rest)

insert_hit-Perm : (h : Hit) (xs : List Hit) → Perm (insert_hit h xs) (h ∷ xs)
unfolding insert_hit
insert_hit-Perm h [] = Perm.refl (h ∷ [])
insert_hit-Perm h (x ∷ xs) = elim (Bool-cases (int_leb h.0 x.0)) [
  | inl e ↦ rw e (Perm.refl (h ∷ x ∷ xs))
  | inr e ↦ rw e (Perm.trans (Perm.cons x (insert_hit-Perm h xs)) (Perm.swap h x xs))
]

sort_hits-Perm : (xs : List Hit) → Perm (sort_hits xs) xs
unfolding sort_hits
sort_hits-Perm [] = Perm.refl []
sort_hits-Perm (h ∷ rest) =
    Perm.trans (insert_hit-Perm h (sort_hits rest)) (Perm.cons h (sort_hits-Perm rest))

fetched-inverse :
    (r : Fetched (List Hit)) (lines : List String)
    → and_fetch r (λ rows. fetched ("  rule_hits:" ∷ map hit_line (sort_hits rows))) ≡ fetched lines
    → (rows : List Hit) × (r ≡ fetched rows)
      × (lines ≡ "  rule_hits:" ∷ map hit_line (sort_hits rows))
fetched-inverse (fetched rows) lines h = (rows, refl, cc h)
fetched-inverse (client_error m) lines h = cc h
fetched-inverse (bad_value m) lines h = cc h
fetched-inverse (escaped m) lines h = cc h

row-inverse :
    (o : Option ℤ) (others : Fetched (List Hit)) (rule_id : String) (count : ℤ) (rows : List Hit)
    (m : String)
    → on_option o (bad_value m) (λ n. and_fetch others λ hits. fetched ((n, rule_id, count) ∷ hits))
      ≡ fetched rows
    → (n : ℤ) × (rest : List Hit) × (o ≡ some n)
      × (others ≡ fetched rest)
      × (rows ≡ (n, rule_id, count) ∷ rest)
row-inverse none others rule_id count rows m h = cc h
row-inverse (some n) (fetched rest) rule_id count rows m h = (n, rest, refl, refl, cc h)
row-inverse (some n) (client_error m') rule_id count rows m h = cc h
row-inverse (some n) (bad_value m') rule_id count rows m h = cc h
row-inverse (some n) (escaped m') rule_id count rows m h = cc h

module _ (int : String → Option ℤ) where
  -- The rows are the rules in order, each with its id as a number.
  abbrev pub AreKeyed : List (String × ℤ) → List Hit → Type 0
  AreKeyed [] [] = Unit
  AreKeyed ((rule_id, count) ∷ hits) ((n, rule_id', count') ∷ rows) =
      (int rule_id ≡ some n) × (rule_id' ≡ rule_id) × (count' ≡ count) × AreKeyed hits rows
  AreKeyed _ _ = ⊥

  keyed-AreKeyed :
      (hits : List (String × ℤ)) (rows : List Hit)
      → keyed int hits ≡ fetched rows
      → AreKeyed hits rows
  unfolding keyed
  keyed-AreKeyed [] [] h = tt
  keyed-AreKeyed [] (row ∷ rows) h = cc h
  keyed-AreKeyed ((rule_id, count) ∷ hits) rows h =
      let (n, rest, number, others, same) =
        row-inverse (int rule_id) (keyed int hits) rule_id count rows _ h in
      rw same (number, refl, refl, keyed-AreKeyed hits rest others)

  -- The lines for rules, when they are rendered, are a heading and one line for each rule with its
  -- id and its count, in the order of the ids as numbers.
  pub rule_hit_lines-IsSorted :
      (hit : String × ℤ) (hits : List (String × ℤ)) (lines : List String)
      → rule_hit_lines int (hit ∷ hits) ≡ fetched lines
      → (rows : List Hit) × (sorted : List Hit) × AreKeyed (hit ∷ hits) rows
        × Perm sorted rows
        × IsSorted sorted
        × (lines ≡ "  rule_hits:" ∷ map hit_line sorted)
  unfolding rule_hit_lines
  rule_hit_lines-IsSorted hit hits lines h =
      let (rows, e, l) = fetched-inverse (keyed int (hit ∷ hits)) lines h in
      (
        rows,
        sort_hits rows,
        keyed-AreKeyed (hit ∷ hits) rows e,
        sort_hits-Perm rows,
        sort_hits-IsSorted rows,
        l,
      )
