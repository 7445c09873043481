-- ===== src/Http/Trie/Search.antt =====
-- `Trie::find` of http/http_router.hpp. A place in the address goes by the text from there on.
use cortono.Prelude.{
  Text, List, [], ◌∷◌, ◌++◌, ℕ, zero, suc, ◌+◌, ◌-◌, ◌*◌, ◌^◌, Option, none, some, Bool, false,
  length, drop, ◌==◌, ◌&&◌, ◌||◌, not, ltb, leb, if◌then◌else◌, is_digit,
}
use cortono.Prelude.Int.{ℤ, pos, sub_ℕ}
use cortono.Http.Trie.{Trie, TrieNode, int, uint, double, string, path, node_at}

-- A call returns, or does what C++ leaves undefined, or the fuel is used up.
pub data Outcome {ℓ} (A : Type ℓ) : Type ℓ where
  ok : A → Outcome A
  undefined : Outcome A
  endless : Outcome A

abbrev pub and_then : {A B : Type 0} → Outcome A → (A → Outcome B) → Outcome B
and_then (ok a) f = f a
and_then undefined f = undefined
and_then endless f = endless

-- `routing_params`, with the type of the numbers of `double`.
pub record RoutingParams (D : Type 0) : Type 0 where
  pub int_params : List ℤ
  pub uint_params : List ℕ
  pub double_params : List D
  pub string_params : List Text

abbrev pub no_params : {D : Type 0} → RoutingParams D
no_params = record { int_params = []; uint_params = []; double_params = []; string_params = [] }

-- `pop_back`, undefined on an empty vector.
abbrev pub pop_back : {A : Type 0} → List A → Outcome (List A)
pop_back [] = undefined
pop_back (x ∷ []) = ok []
pop_back (x ∷ y ∷ xs) = and_then (pop_back (y ∷ xs)) (λ r. ok (x ∷ r))

-- The number of digits that the text begins with, and their value behind `n`.
abbrev pub digits_length : Text → ℕ
digits_length [] = 0
digits_length (c ∷ s) = let rest = suc (digits_length s) in if is_digit c then rest else 0

abbrev pub digits_value : ℕ → Text → ℕ
digits_value n [] = n
digits_value n (c ∷ s) =
    let rest = digits_value (n * 10 + (c - 48)) s in if is_digit c then rest else n

abbrev pub is_sign : ℕ → Bool
is_sign c = c == 43 || c == 45

-- How far `strtoll` and `strtoull` read a text: a sign with no digit behind it is not read.
abbrev pub number_length : Text → ℕ
number_length [] = 0
number_length (c ∷ s) =
    if is_sign c
    then (if digits_length s == 0 then 0 else suc (digits_length s))
    else digits_length (c ∷ s)

-- `strtoll(s, &eptr, 10)` of a text that begins with a sign or a digit: the value, and how far it
-- was read. `none` is ERANGE.
abbrev pub strtoll : Text → Option (ℤ × ℕ)
strtoll [] = some (pos 0, 0)
strtoll (c ∷ s) =
    let n = digits_value 0 s in
    if c == 45
    then (if leb n (2 ^ 63) then some (sub_ℕ 0 n, number_length (c ∷ s)) else none)
    else (let m = if c == 43 then n else digits_value 0 (c ∷ s) in
        if ltb m (2 ^ 63) then some (pos m, number_length (c ∷ s)) else none)

-- `strtoull(s, &eptr, 10)` of a text that begins with a plus or a digit.
abbrev pub strtoull : Text → Option (ℕ × ℕ)
strtoull [] = some (0, 0)
strtoull (c ∷ s) =
    let m = if c == 43 then digits_value 0 s else digits_value 0 (c ∷ s) in
    if ltb m (2 ^ 64) then some (m, number_length (c ∷ s)) else none

-- `req_url.find_first_of('/', pos)`, or the end: the characters before it.
abbrev pub segment : Text → Text
segment [] = []
segment (c ∷ s) = let rest = c ∷ segment s in if c == 47 then [] else rest

abbrev pub begins : (ℕ → Bool) → Text → Bool
begins p [] = false
begins p (c ∷ s) = p c

module _ (D : Type 0) (strtold : Text → Option (D × ℕ)) where
  -- `rule_index`, -1 as `none`; `match_params`; and what `*params` holds.
  pub record Found : Type 0 where
    pub rule_index : Option ℕ
    pub match_params : RoutingParams D
    pub params : RoutingParams D

  abbrev pub not_found : RoutingParams D → Found
  not_found ps = record { rule_index = none; match_params = no_params; params = ps }

  abbrev pub with_params : Found → RoutingParams D → Found
  with_params f ps = record f { params = ps }

  -- What the recursive call finds below the node with this number.
  module _ (search : Text → ℕ → RoutingParams D → Outcome Found) where
    -- The five blocks of `find`, each for one kind of parameter. `update_found` takes the answer of
    -- the last call.
    unfoldable pub find_int : TrieNode → Text → Found → Outcome Found
    find_int n s f =
        if not (n.param_children int == 0) && begins (λ c. is_digit c || is_sign c) s
        then elim (strtoll s) [
          | none ↦ ok f
          | some (v, k) ↦
              let ps = f.params in
              and_then
                (search (drop k s) (n.param_children int)
                  (record ps { int_params = ps.int_params ++ v ∷ [] }))
                (λ r.
                  and_then (pop_back r.params.int_params)
                    (λ vs. ok (with_params r (record (Found.params r) { int_params = vs }))))
        ]
        else ok f

    unfoldable pub find_uint : TrieNode → Text → Found → Outcome Found
    find_uint n s f =
        if not (n.param_children uint == 0) && begins (λ c. is_digit c || c == 43) s
        then elim (strtoull s) [
          | none ↦ ok f
          | some (v, k) ↦
              let ps = f.params in
              and_then
                (search (drop k s) (n.param_children uint)
                  (record ps { uint_params = ps.uint_params ++ v ∷ [] }))
                (λ r.
                  and_then (pop_back r.params.uint_params)
                    (λ vs. ok (with_params r (record (Found.params r) { uint_params = vs }))))
        ]
        else ok f

    unfoldable pub find_double : TrieNode → Text → Found → Outcome Found
    find_double n s f =
        if not (n.param_children double == 0) && begins (λ c. is_digit c || is_sign c) s
        then elim (strtold s) [
          | none ↦ ok f
          | some (v, k) ↦
              let ps = f.params in
              and_then
                (search (drop k s) (n.param_children double)
                  (record ps { double_params = ps.double_params ++ v ∷ [] }))
                (λ r.
                  and_then (pop_back r.params.double_params)
                    (λ vs. ok (with_params r (record (Found.params r) { double_params = vs }))))
        ]
        else ok f

    unfoldable pub find_string : TrieNode → Text → Found → Outcome Found
    find_string n s f =
        let part = segment s in
        if not (n.param_children string == 0) && not (length part == 0)
        then (let ps = f.params in
            and_then
              (search (drop (length part) s) (n.param_children string)
                (record ps { string_params = ps.string_params ++ part ∷ [] }))
              (λ r.
                and_then (pop_back r.params.string_params)
                  (λ vs. ok (with_params r (record (Found.params r) { string_params = vs })))))
        else ok f

    -- The end of the block takes the parameter out of the numbers, not of the texts.
    unfoldable pub find_path : TrieNode → Text → Found → Outcome Found
    find_path n s f =
        if not (n.param_children path == 0)
        then (let ps = f.params in
            and_then
              (search [] (n.param_children path)
                (record ps { string_params = ps.string_params ++ s ∷ [] }))
              (λ r.
                and_then (pop_back r.params.double_params)
                  (λ vs. ok (with_params r (record (Found.params r) { double_params = vs })))))
        else ok f

    -- The loop over `children`.
    unfoldable pub find_children : List (ℕ × ℕ) → Text → Found → Outcome Found
    find_children [] s f = ok f
    find_children ((c, j) ∷ m) s f =
        if begins (λ d. d == c) s
        then and_then (search (drop 1 s) j f.params) (λ r. find_children m s r)
        else find_children m s f

    -- The call for the text `s` that is left at the node `n`.
    unfoldable pub find_below : TrieNode → Text → RoutingParams D → Outcome Found
    unfolding find_int find_uint find_double find_string find_path find_children
    find_below n [] ps = ok (record {
      rule_index = if n.done then some n.rule_index else none;
      match_params = ps;
      params = ps;
    })
    find_below n (c ∷ s) ps = and_then (find_int n (c ∷ s) (not_found ps)) (λ f.
        and_then (find_uint n (c ∷ s) f) (λ f. and_then (find_double n (c ∷ s) f) (λ f.
          and_then (find_string n (c ∷ s) f)
            (λ f. and_then (find_path n (c ∷ s) f) (λ f. find_children n.children (c ∷ s) f)))))

  -- With fuel for the depth of the calls.
  unfoldable pub find_at : ℕ → Trie → Text → ℕ → RoutingParams D → Outcome Found
  unfolding find_below node_at
  find_at zero t s i ps = endless
  find_at (suc fuel) t s i ps = find_below (find_at fuel t) (node_at i t) s ps

  -- `find(req_url)`: an empty address asks the null pointer `node` for `done`.
  unfoldable pub find : Trie → Text → Outcome Found
  unfolding find_at
  find t [] = undefined
  find t (c ∷ s) = find_at (length t) t (c ∷ s) 0 no_params
