-- ===== src/Next/Algolia.antt =====
-- algolia-search.js: the settings of the search, and the texts that its widgets show. The search itself
-- is a service, and the widgets are a library.
use cortono.Prelude.{
  Text, codes, [], ◌∷◌, ◌++◌, ℕ, zero, suc, ◌≡◌, refl, ap, sym, ◌∙◌, Bool, true, false, not, ◌&&◌,
  if◌then◌else◌, ◌==◌, is_prefix, avoids, avoids-append, decimal, decimal-avoids, drop, length,
  arith, append_assoc,
}
use cortono.Prelude.Replace.{is_prefix-append}
use cortono.Chat.Trim.{is_empty}

-- `CONFIG.algolia` and `CONFIG.root`. A setting that is missing is the empty text here, which fails the
-- same tests; `per_page` is 0 then.
pub record AlgoliaSettings : Type 0 where
  pub application_id : Text
  pub api_key : Text
  pub index_name : Text
  pub per_page : ℕ
  pub input_placeholder : Text
  pub hits_empty : Text
  pub hits_stats : Text
  pub root : Text

unfoldable pub is_algolia_settings_valid : AlgoliaSettings → Bool
is_algolia_settings_valid c =
    not (is_empty c.application_id) && (not (is_empty c.api_key) && not (is_empty c.index_name))

-- What a page does: it reports invalid settings on the console, or it starts a search of an index with so
-- many hits on a page.
pub data Started : Type 0 where
  invalid : Started
  started : Text → Text → Text → ℕ → Started

unfoldable pub start : AlgoliaSettings → Started
unfolding is_algolia_settings_valid
start c =
    if is_algolia_settings_valid c
    then started c.application_id c.api_key c.index_name (or_ten c.per_page)
    else invalid
  where
    or_ten : ℕ → ℕ
    or_ten zero = 10
    or_ten (suc n) = suc n

-- `searchFunction`: whether the service is asked, by the text in the input
unfoldable pub search_function : Text → Bool
search_function val = not (is_empty val)

-- How `replace` reads its second argument: `$$`, `$&`, "$`" and `$'` stand for a dollar, the match, the
-- text before it and the text behind it. The expressions have no groups, so another dollar stands for
-- itself.
unfoldable pub expand : Text → Text → Text → Text → Text
expand before match behind [] = []
expand before match behind (c ∷ []) = c ∷ []
expand before match behind (c ∷ d ∷ t) =
    let rest = expand before match behind t in
    let plain = expand before match behind (d ∷ t) in
    if c == b'$' && d == b'$'
    then b'$' ∷ rest
    else (if c == b'$' && d == b'&'
        then match ++ rest
        else (if c == b'$' && d == b'`'
            then before ++ rest
            else (if c == b'$' && d == b'\'' then behind ++ rest else c ∷ plain)))

-- `s.replace(/…/, t)` for an expression that matches one text: from a text that was passed, and the rest
unfoldable pub replace_from : Text → Text → Text → Text → Text
unfolding expand
replace_from match t before [] = before
replace_from match t before (c ∷ s) =
    let later = replace_from match t (before ++ c ∷ []) s in
    if is_prefix match (c ∷ s)
    then before
      ++ (expand before match (drop (length match) (c ∷ s)) t ++ drop (length match) (c ∷ s))
    else later

unfoldable pub replace : Text → Text → Text → Text
unfolding replace_from
replace match t s = replace_from match t [] s

-- A hit: its `permalink`, empty if it has none, its path, and the value of its title with the words
-- found in it.
pub record Hit : Type 0 where
  pub permalink : Text
  pub path : Text
  pub title : Text

unfoldable pub item : AlgoliaSettings → Hit → Text
item c h =
    let link = if is_empty h.permalink then c.root ++ h.path else h.permalink in
    codes "<a href=\""
    ++ (link ++ (codes "\" class=\"algolia-hit-item-link\">" ++ (h.title ++ codes "</a>")))

unfoldable pub empty : AlgoliaSettings → Text → Text
unfolding replace
empty c query =
    codes "<div id=\"algolia-hits-empty\">"
    ++ (replace (codes "${query}") query c.hits_empty ++ codes "</div>")

unfoldable pub stats : AlgoliaSettings → ℕ → ℕ → Text
unfolding replace
stats c nb_hits processing_time_ms =
    replace (codes "${time}") (decimal processing_time_ms)
      (replace (codes "${hits}") (decimal nb_hits) c.hits_stats)

unfoldable pub body : AlgoliaSettings → ℕ → ℕ → Text
unfolding stats
body c nb_hits processing_time_ms =
    stats c nb_hits processing_time_ms
    ++ (codes "<span class=\"algolia-powered\">"
        ++ (codes "  <img src=\""
            ++ (c.root
                ++ (codes "images/algolia_logo.svg\" alt=\"Algolia\" />"
                    ++ codes "</span><hr />"))))

drop_self : (p s : Text) → drop (length p) (p ++ s) ≡ s
drop_self [] s = refl
drop_self (c ∷ p) s = drop_self p s

avoids_head : (c : ℕ) (s : Text) → avoids b'$' (c ∷ s) ≡ true → (c == b'$') ≡ false
avoids_head c s h = ground arith

avoids_tail : (c : ℕ) (s : Text) → avoids b'$' (c ∷ s) ≡ true → avoids b'$' s ≡ true
avoids_tail c s h = ground arith

not_dollar : (c : ℕ) (s : Text) → avoids b'$' (c ∷ s) ≡ true → (b'$' == c) ≡ false
not_dollar c s h = grind arith

-- a text without a dollar stands for itself
expand-avoids :
    (before match behind t : Text) → avoids b'$' t ≡ true → expand before match behind t ≡ t
unfolding expand
expand-avoids before match behind [] h = refl
expand-avoids before match behind (c ∷ []) h = refl
expand-avoids before match behind (c ∷ d ∷ t) h =
    rw (avoids_head c (d ∷ t) h)
      (ap (c ∷◌) (expand-avoids before match behind (d ∷ t) (avoids_tail c (d ∷ t) h)))

-- the first match of an expression that begins with a dollar
replace_from-match :
    (m t before a b : Text)
    → avoids b'$' t ≡ true
    → avoids b'$' a ≡ true
    → replace_from (b'$' ∷ m) t before (a ++ ((b'$' ∷ m) ++ b)) ≡ before ++ (a ++ (t ++ b))
unfolding replace_from
replace_from-match m t before [] b h k =
    rw (is_prefix-append m b, drop_self m b, expand-avoids before (b'$' ∷ m) b t h) refl
replace_from-match m t before (c ∷ a) b h k = rw (not_dollar c a k) (
    replace_from-match m t (before ++ c ∷ []) a b h (avoids_tail c a k)
    ∙ append_assoc before (c ∷ []) (a ++ (t ++ b)))

replace-match :
    (m t a b : Text)
    → avoids b'$' t ≡ true
    → avoids b'$' a ≡ true
    → replace (b'$' ∷ m) t (a ++ ((b'$' ∷ m) ++ b)) ≡ a ++ (t ++ b)
unfolding replace
replace-match m t a b h k = replace_from-match m t [] a b h k

regroup : (p n q r : Text) → p ++ (n ++ (q ++ r)) ≡ (p ++ (n ++ q)) ++ r
regroup p n q r = ap (p ++◌) (sym (append_assoc n q r)) ∙ sym (append_assoc p (n ++ q) r)

no_dollar : (n : ℕ) → avoids b'$' (decimal n) ≡ true
no_dollar n = decimal-avoids b'$' n refl

-- Where the theme's texts name ${query}, ${hits} and ${time} once, in this order and with no other
-- dollar before them, and the query has no dollar, the widgets show the texts with the query and
-- the numbers in these places.
pub empty-stats :
    (c : AlgoliaSettings) (a b p q r query : Text) (nb_hits processing_time_ms : ℕ)
    → c.hits_empty ≡ a ++ (codes "${query}" ++ b)
    → c.hits_stats ≡ p ++ (codes "${hits}" ++ (q ++ (codes "${time}" ++ r)))
    → avoids b'$' a ≡ true
    → avoids b'$' query ≡ true
    → avoids b'$' p ≡ true
    → avoids b'$' q ≡ true
    → (empty c query
        ≡ codes "<div id=\"algolia-hits-empty\">" ++ ((a ++ (query ++ b)) ++ codes "</div>"))
      × (stats c nb_hits processing_time_ms
          ≡ p ++ (decimal nb_hits ++ (q ++ (decimal processing_time_ms ++ r))))
unfolding empty stats
empty-stats c a b p q r query n ms e s ha hq hp hr = (
  rw (e, replace-match (codes "{query}") query a b hq ha) refl,
  rw
      (
        s,
        replace-match (codes "{hits}") (decimal n) p (q ++ (codes "${time}" ++ r)) (no_dollar n) hp,
      )
      (ap (replace (codes "${time}") (decimal ms)) (regroup p (decimal n) q (codes "${time}" ++ r))
        ∙ replace-match (codes "{time}") (decimal ms) (p ++ (decimal n ++ q)) r (no_dollar ms) (
            avoids-append b'$' p (decimal n ++ q) hp
              (avoids-append b'$' (decimal n) q (no_dollar n) hr))
        ∙ sym (regroup p (decimal n) q (decimal ms ++ r))),
)
