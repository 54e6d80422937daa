-- ===== src/Config/Names/Distinct.antt =====
-- When a scan for repeated keys finds none.
use pktlab.Base.{
  eq_iff, ℕ, suc, ◌<◌, ◌≡◌, refl, ap, Bool, true, false, ◌||◌, not, some, List, [], ◌∷◌, ◌++◌, ◌==◌,
  arith, Bool-cases, inl, inr, String, str_eq, is_nil, ◌↔◌, is_some, contains,
}
use pktlab.Config.{issue_if}
use pktlab.Config.Names.{
  member, first_index, setdefault, duplicate_names, collect_duplicate_names, to_set,
}

-- The parts of a concatenation without an element have none.
pub append_nil {ℓ} :
    {A : Type ℓ} (xs ys : List A)
    → is_nil (xs ++ ys) ≡ true
    → (is_nil xs ≡ true) × (is_nil ys ≡ true)
append_nil [] ys h = (refl, h)
append_nil (x ∷ xs) ys h = cc

pub issue_if_nil :
    (b : Bool) (path code message : String)
    → is_nil (issue_if b path code message) ≡ true
    → b ≡ false
issue_if_nil true path code message h = cc
issue_if_nil false path code message h = refl

module _ {ℓ} {K : Type ℓ} (same : K → K → Bool) where
  abbrev pub keys : List (K × ℕ) → List K
  keys [] = []
  keys ((k, i) ∷ rest) = k ∷ keys rest

  -- Every index of the dictionary is below the current one.
  abbrev pub Below : ℕ → List (K × ℕ) → Type 0
  Below n [] = Unit
  Below n ((k, i) ∷ rest) = (i < n) × Below n rest

  pub Below-suc : (n : ℕ) (seen : List (K × ℕ)) → Below n seen → Below (suc n) seen
  Below-suc n [] h = tt
  Below-suc n ((k, i) ∷ rest) h = (omega arith, Below-suc n rest h.1)

  -- The keys are new and distinct.
  abbrev pub Fresh : List K → List K → Type 0
  Fresh known [] = Unit
  Fresh known (k ∷ ks) = (member same k known ≡ false) × Fresh (k ∷ known) ks

  first_index-lt :
      (k : K) (index j : ℕ) (seen : List (K × ℕ))
      → Below index seen
      → first_index same k seen ≡ some j
      → j < index
  unfolding first_index
  first_index-lt k index j [] b h = cc
  first_index-lt k index j ((x, i) ∷ rest) b h = ground (arith, first_index-lt k index j rest b.1)

  first_index-member :
      (k : K) (seen : List (K × ℕ)) → is_some (first_index same k seen) ≡ member same k (keys seen)
  unfolding first_index member
  first_index-member k [] = refl
  first_index-member k ((x, i) ∷ rest) = ground (arith, first_index-member k rest)

  -- A key that was seen before has another index than the current one.
  pub setdefault-new :
      (k : K) (index : ℕ) (seen : List (K × ℕ))
      → Below index seen
      → not ((setdefault same k index seen).0 == index) ≡ false
      → (member same k (keys seen) ≡ false)
        × (setdefault same k index seen ≡ (index, (k, index) ∷ seen))
  unfolding setdefault
  setdefault-new k index seen b h =
      ground (arith, first_index-member k seen, first_index-lt k index (index) seen b)

  -- The same, right after another key was given the current index.
  pub setdefault-second :
      (x k : K) (index : ℕ) (seen : List (K × ℕ))
      → Below index seen
      → same x k ≡ false
      → not ((setdefault same k index ((x, index) ∷ seen)).0 == index) ≡ false
      → (member same k (keys seen) ≡ false)
        × (setdefault same k index ((x, index) ∷ seen) ≡ (index, (k, index) ∷ (x, index) ∷ seen))
  unfolding setdefault first_index
  setdefault-second x k index seen b d h =
      ground (arith, first_index-member k seen, first_index-lt k index (index) seen b)

  pub setdefault-fresh :
      (k : K) (index : ℕ) (seen : List (K × ℕ))
      → member same k (keys seen) ≡ false
      → setdefault same k index seen ≡ (index, (k, index) ∷ seen)
  unfolding setdefault
  setdefault-fresh k index seen h = ground (arith, first_index-member k seen)

pub same_index : (n : ℕ) → not (n == n) ≡ false
same_index n = ground arith

duplicate_names-Fresh :
    (path : String) (index : ℕ) (seen : List (String × ℕ)) (names : List String)
    → Below str_eq index seen
    → is_nil (duplicate_names path index seen names) ≡ true
    → Fresh str_eq (keys str_eq seen) names
unfolding duplicate_names
duplicate_names-Fresh path index seen [] b h = tt
duplicate_names-Fresh path index seen (name ∷ rest) b h =
    let parts : (not ((setdefault str_eq name index seen).0 == index) ≡ false)
        × (is_nil (duplicate_names path (suc index) (setdefault str_eq name index seen).1 rest)
            ≡ true) =
      ground arith in
    let new = setdefault-new str_eq name index seen b parts.0 in
    (
      new.0,
      duplicate_names-Fresh path (suc index) ((name, index) ∷ seen) rest
          (omega arith, Below-suc str_eq index seen b) (rw new.1 at (parts.1)),
    )

Fresh-duplicate_names :
    (path : String) (index : ℕ) (seen : List (String × ℕ)) (names : List String)
    → Fresh str_eq (keys str_eq seen) names
    → is_nil (duplicate_names path index seen names) ≡ true
unfolding duplicate_names
Fresh-duplicate_names path index seen [] h = refl
Fresh-duplicate_names path index seen (name ∷ rest) h =
    rw (setdefault-fresh str_eq name index seen h.0, same_index index)
      (Fresh-duplicate_names path (suc index) ((name, index) ∷ seen) rest h.1)

-- No name occurs twice.
abbrev pub NoRepeats : List String → Type 0
NoRepeats names = Fresh str_eq [] names

-- The scan for duplicate names reports nothing exactly when no name occurs twice.
pub collect_duplicate_names-NoRepeats :
    (path : String) (names : List String)
    → (is_nil (collect_duplicate_names path names) ≡ true) ↔ NoRepeats names
unfolding collect_duplicate_names
collect_duplicate_names-NoRepeats path names =
    (λ h. duplicate_names-Fresh path 0 [] names tt h, λ h. Fresh-duplicate_names path 0 [] names h)

-- The set has the names of the list.
pub contains-to_set :
    (s : String) (names : List String) → contains s (to_set names) ≡ contains s names
unfolding to_set
contains-to_set s [] = refl
contains-to_set s (x ∷ xs) = elim (Bool-cases (contains x (to_set xs))) [
  | inl e ↦ rw e (ground (arith, eq_iff x s, contains-to_set s xs, e))
  | inr e ↦ rw e (ap (λ b. str_eq x s || b) (contains-to_set s xs))
]
