-- ===== src/Util/Netns.antt =====
-- `NetnsRunner`, the wrapper of the `ip` tool: ctrld/pktlab_ctrld/util/netns.py.
use pktlab.Base.{
  ℕ, String, Bool, false, Option, none, some, List, [], ◌∷◌, ◌++◌, ◌==◌, ℤ, pos, negsuc, contains,
  if◌then◌else◌, is_empty, CharTable, split_lines, first_word,
}
use pktlab.Effect.{Action, pure, ◌>>=◌, ◌>>◌}
use pktlab.Util.{Completed, Shell, execute}

-- The first word of every line that has one.
unfoldable pub first_words : CharTable → List String → List String
first_words t [] = []
first_words t (line ∷ rest) =
    let word = first_word t line in
    if is_empty word then first_words t rest else word ∷ first_words t rest

module _ {W : Type 0} (t : CharTable) (shell : Shell W) where
  abbrev pub in_namespace : Option String → List String
  in_namespace none = []
  in_namespace (some ns) = "-n" ∷ ns ∷ []

  unfoldable pub run_ip : Option String → List ℕ → List String → Action W Completed
  run_ip ns allowed arguments = execute shell allowed ("ip" ∷ (in_namespace ns ++ arguments))

  -- A command whose result is not used.
  unfoldable pub run_quiet : Option String → List String → Action W Unit
  run_quiet ns arguments = do run_ip ns (0 ∷ []) arguments; pure tt

  unfoldable pub list_namespaces : Action W (List String)
  list_namespaces = do
    result ← run_ip none (0 ∷ []) ("netns" ∷ "list" ∷ [])
    pure (first_words t (split_lines t result.stdout))

  unfoldable pub namespace_exists : String → Action W Bool
  namespace_exists ns = do names ← list_namespaces; pure (contains ns names)

  unfoldable pub ensure_namespace : String → Action W Unit
  ensure_namespace ns = do
    present ← namespace_exists ns
    if present then pure tt else run_quiet none ("netns" ∷ "add" ∷ ns ∷ [])

  unfoldable pub delete_namespace : String → Action W Unit
  delete_namespace ns = do
    present ← namespace_exists ns
    if present then run_quiet none ("netns" ∷ "del" ∷ ns ∷ []) else pure tt

  abbrev is_zero : ℤ → Bool
  is_zero (pos n) = n == 0
  is_zero (negsuc n) = false

  unfoldable pub link_exists : String → String → Action W Bool
  link_exists ns interface = do
    result ← run_ip (some ns) (0 ∷ 1 ∷ []) ("link" ∷ "show" ∷ "dev" ∷ interface ∷ [])
    pure (is_zero result.returncode)

  abbrev add_veth_pair : String → String → String → String → Action W Unit
  add_veth_pair ns_a if_a ns_b if_b = run_quiet none (
      "link" ∷ "add" ∷ "name" ∷ if_a ∷ "netns" ∷ ns_a ∷ "type" ∷ "veth" ∷ "peer" ∷ "name" ∷ if_b
      ∷ "netns" ∷ ns_b ∷ [])

  -- The second end is looked up only if the first is there.
  unfoldable pub ensure_veth_pair : String → String → String → String → Action W Unit
  ensure_veth_pair ns_a if_a ns_b if_b = do
    first ← link_exists ns_a if_a
    both ← if first then link_exists ns_b if_b else pure false
    if both then pure tt else add_veth_pair ns_a if_a ns_b if_b

  unfoldable pub delete_link : String → String → Action W Unit
  delete_link ns interface = do
    present ← link_exists ns interface
    if present then run_quiet (some ns) ("link" ∷ "del" ∷ "dev" ∷ interface ∷ []) else pure tt

  unfoldable pub ensure_bridge : String → String → Action W Unit
  ensure_bridge ns bridge = do
    present ← link_exists ns bridge
    if present
        then pure tt
        else run_quiet (some ns) ("link" ∷ "add" ∷ "name" ∷ bridge ∷ "type" ∷ "bridge" ∷ [])

  unfoldable pub replace_address : String → String → String → Action W Unit
  replace_address ns interface cidr =
      run_quiet (some ns) ("address" ∷ "replace" ∷ cidr ∷ "dev" ∷ interface ∷ [])

  unfoldable pub replace_route : String → String → String → Action W Unit
  replace_route ns dst via = run_quiet (some ns) ("route" ∷ "replace" ∷ dst ∷ "via" ∷ via ∷ [])

  unfoldable pub attach_to_bridge : String → String → String → Action W Unit
  attach_to_bridge ns interface bridge =
      run_quiet (some ns) ("link" ∷ "set" ∷ "dev" ∷ interface ∷ "master" ∷ bridge ∷ [])

  unfoldable pub set_link_up : String → String → Action W Unit
  set_link_up ns interface = run_quiet (some ns) ("link" ∷ "set" ∷ "dev" ∷ interface ∷ "up" ∷ [])
