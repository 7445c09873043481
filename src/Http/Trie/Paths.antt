-- ===== src/Http/Trie/Paths.antt =====
-- `find` of http/http_router.hpp at a rule that ends in `<path>`.
use cortono.Prelude.{Text, [], ◌∷◌, ℕ, suc, ◌≡◌, ◌≢◌, arith, Option, false, ◌==◌}
use cortono.Http.Trie.{Trie, TrieNode, int, uint, double, string, path, node_at}
use cortono.Http.Trie.Search.{
  undefined, RoutingParams, Found, not_found, find_path, find_below, find_at,
}
use cortono.Http.Trie.Finds.{find_int-plain, find_uint-plain, find_double-plain, find_string-plain}

module _ (D : Type 0) (strtold : Text → Option (D × ℕ)) where
  find_path_undefined :
      (fuel : ℕ) (t : Trie) (n : TrieNode) (s : Text) (f : Found D strtold)
      → n.param_children path ≢ 0
      → f.params.double_params ≡ []
      → find_path D strtold (find_at D strtold (suc fuel) t) n s f ≡ undefined
  unfolding find_path find_at find_below
  find_path_undefined fuel t n s f h e =
      let there : (n.param_children path == 0) ≡ false = ground (arith, h) in
      rw (find_path, there, e)

  -- Where no number of type double was read: at a node whose only parameter is a path, find takes
  -- the last number out of an empty vector, whatever the address and the other nodes are.
  pub find_at_undefined :
      (fuel : ℕ) (t : Trie) (c : ℕ) (s : Text) (i : ℕ) (ps : RoutingParams D)
      → (node_at i t).param_children path ≢ 0
      → (node_at i t).param_children int ≡ 0
      → (node_at i t).param_children uint ≡ 0
      → (node_at i t).param_children double ≡ 0
      → (node_at i t).param_children string ≡ 0
      → ps.double_params ≡ []
      → find_at D strtold (suc (suc fuel)) t (c ∷ s) i ps ≡ undefined
  unfolding find_at find_below
  find_at_undefined fuel t c s i ps p a b d e h =
      let search = find_at D strtold (suc fuel) t in
      let start = not_found D strtold ps in
      let n = node_at i t in
      rw (
        find_int-plain D strtold search n (c ∷ s) start a,
        find_uint-plain D strtold search n (c ∷ s) start b,
        find_double-plain D strtold search n (c ∷ s) start d,
        find_string-plain D strtold search n (c ∷ s) start e,
        find_path_undefined fuel t n (c ∷ s) start p h,
      )
