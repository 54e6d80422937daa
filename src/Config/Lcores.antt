-- ===== src/Config/Lcores.antt =====
-- The lcore list of a datapath process: `_parse_lcore_spec` of
-- ctrld/pktlab_ctrld/config/validation.py.
pub mod Parsed
use pktlab.Base.{
  ℕ, zero, suc, ◌+◌, ◌-◌, String, Bool, true, false, ◌||◌, not, Option, none, some, List, [], ◌∷◌,
  ◌++◌, map, ltb, leb, ◌==◌, if◌then◌else◌, ◌<>◌, is_empty, is_nil, length, CharTable, strip,
  isdigit, split, partition,
}
use pktlab.Error.{value_error}
use pktlab.Effect.{Outcome, ok, raised, and_then}
use pktlab.Config.{ValidationIssue, issue}

-- `range(start, start + count)`
unfoldable pub range_from : ℕ → ℕ → List ℕ
range_from start zero = []
range_from start (suc count) = start ∷ range_from (start + 1) count

unfoldable pub contains_number : ℕ → List ℕ → Bool
contains_number n [] = false
contains_number n (x ∷ xs) = x == n || contains_number n xs

-- Insertion into a sorted list without repetition: `sorted(set(parsed))` one element at a time.
unfoldable pub insert_sorted : ℕ → List ℕ → List ℕ
insert_sorted n [] = n ∷ []
insert_sorted n (x ∷ xs) =
    let rest = insert_sorted n xs in
    if ltb n x then n ∷ x ∷ xs else if n == x then x ∷ xs else x ∷ rest

unfoldable pub sorted_set : List ℕ → List ℕ
unfolding insert_sorted
sorted_set [] = []
sorted_set (n ∷ ns) = insert_sorted n (sorted_set ns)

-- `[token.strip() for token in value.split(",") if token.strip()]`
unfoldable pub strip_tokens : CharTable → List String → List String
strip_tokens t [] = []
strip_tokens t (s ∷ rest) =
    let token = strip t s in
    if is_empty token then strip_tokens t rest else token ∷ strip_tokens t rest

abbrev pub int : CharTable → String → Outcome ℕ
int t s = elim (t.int_of s) [
  | none ↦ raised (value_error "invalid literal for int() with base 10")
  | some n ↦ ok n
]

-- What one token adds, or the issue that ends the parse.
pub data Token : Type 0 where
  cpus : List ℕ → Token
  refused : List ValidationIssue → Token

abbrev unsupported : String → String → Token
unsupported path token =
    refused (issue path "invalid_lcore_spec" ("unsupported lcore token '" <> token <> "'"))

range_token : String → String → ℕ → ℕ → Token
range_token path token start last =
    if ltb last start
    then refused
        (issue path "invalid_lcore_range" ("lcore range '" <> token <> "' must be ascending"))
    else cpus (range_from start (last + 1 - start))

unfoldable pub read_token : CharTable → String → String → Outcome Token
unfolding range_token
read_token t path token = elim (partition b'-' token) [
  | some (start_text, end_text) ↦
      if not (isdigit t start_text) || not (isdigit t end_text)
      then ok (unsupported path token)
      else and_then (int t start_text)
          (λ start. and_then (int t end_text) (λ last. ok (range_token path token start last)))
  | none ↦
      if not (isdigit t token)
      then ok (unsupported path token)
      else and_then (int t token) (λ n. ok (cpus (n ∷ [])))
]

-- The `for` loop over the tokens: the identifiers parsed, or the issue of an early return.
unfoldable pub read_tokens : CharTable → String → List String → List ℕ → Outcome Token
read_tokens t path [] parsed = ok (cpus parsed)
read_tokens t path (token ∷ rest) parsed = elim (read_token t path token) [
  | raised e ↦ raised e
  | ok (refused issues) ↦ ok (refused issues)
  | ok (cpus ns) ↦ read_tokens t path rest (parsed ++ ns)
]

-- The identifiers and the issues that a parse ends with.
abbrev pub finish : String → Token → List ℕ × List ValidationIssue
finish path (refused issues) = (1 ∷ [], issues)
finish path (cpus parsed) =
    if length parsed == length (sorted_set parsed)
    then (parsed, [])
    else (sorted_set parsed, issue path "duplicate_lcore" "lcore identifiers must not repeat")

unfoldable pub parse_lcore_spec :
    CharTable → String → String → Outcome (List ℕ × List ValidationIssue)
parse_lcore_spec t path value =
    let tokens = strip_tokens t (split b',' value) in
    if is_nil tokens
    then ok
        (1 ∷ [], issue path "invalid_lcore_spec" "lcores must contain at least one CPU identifier")
    else and_then (read_tokens t path tokens []) (λ token. ok (finish path token))
