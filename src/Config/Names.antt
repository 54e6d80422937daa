-- ===== src/Config/Names.antt =====
-- Names, dictionaries from a key to the index at which it was first seen, and
-- `_collect_duplicate_names` of ctrld/pktlab_ctrld/config/validation.py.
pub mod Distinct
use Prim.Native.Nat.{Ordering}
use Prim.Native.String
use pktlab.Base.{
  ℕ, suc, String, Bool, true, false, ◌&&◌, ◌||◌, not, Option, none, some, List, [], ◌∷◌, ◌++◌, ◌==◌,
  if◌then◌else◌, ◌<>◌, decimal, str_eq, contains, on_option,
}
use pktlab.Config.{ValidationIssue, issue_if}

module _ {ℓ} {K : Type ℓ} (same : K → K → Bool) where
  -- `k in keys`
  unfoldable pub member : K → List K → Bool
  member k [] = false
  member k (x ∷ xs) = same x k || member k xs

  -- `seen.get(k)`
  unfoldable pub first_index : K → List (K × ℕ) → Option ℕ
  first_index k [] = none
  first_index k ((x, i) ∷ rest) = if same x k then some i else first_index k rest

  -- `seen.setdefault(k, index)`: its result and the dictionary after it.
  unfoldable pub setdefault : K → ℕ → List (K × ℕ) → ℕ × List (K × ℕ)
  setdefault k index seen =
      on_option (first_index k seen) (index, (k, index) ∷ seen) (λ first. (first, seen))

-- The set of the names, as a list without repetition.
unfoldable pub to_set : List String → List String
to_set [] = []
to_set (s ∷ rest) = let set = to_set rest in if contains s set then set else s ∷ set

insert_name : String → List String → List String
insert_name s [] = s ∷ []
insert_name s (x ∷ xs) =
    let rest = insert_name s xs in
    if str_eq s x
    then x ∷ xs
    else elim (String.compare s x) [ Ordering.gt ↦ x ∷ rest | _ ↦ s ∷ x ∷ xs ]

-- `sorted(set(names))`
unfoldable pub sort_set : List String → List String
unfolding insert_name
sort_set [] = []
sort_set (s ∷ rest) = insert_name s (sort_set rest)

-- `path[index]`
abbrev pub at_index : String → ℕ → String
at_index path index = path <> "[" <> decimal index <> "]"

-- The loop of `_collect_duplicate_names` over the items' names.
unfoldable pub duplicate_names : String → ℕ → List (String × ℕ) → List String → List ValidationIssue
duplicate_names path index seen [] = []
duplicate_names path index seen (name ∷ rest) =
    let (first, seen') = setdefault str_eq name index seen in
    issue_if (not (first == index)) (at_index path index <> ".name") "duplicate_name"
      (path <> " name '" <> name <> "' duplicates the entry at index " <> decimal first)
    ++ duplicate_names path (suc index) seen' rest

-- `_collect_duplicate_names`: the issues; the names that it returns are `to_set` of the names.
unfoldable pub collect_duplicate_names : String → List String → List ValidationIssue
collect_duplicate_names path names = duplicate_names path 0 [] names
