-- ===== src/Prelude/Templates.antt =====
-- Templates: text with slots, each a mark and a key, that a program fills by one global replacement
-- for each entry of a table.
use mathlib.Core.Path.{◌≡◌, refl, ap, ◌∙◌}
use mathlib.Core.Bool.{Bool, true, false, ◌&&◌}
use mathlib.Core.Logic.{inl, inr}
use mathlib.Core.Option.{Option, none, some}
use mathlib.Core.List.{List, [], ◌∷◌, ◌++◌, append-nil, append_assoc}
use Prim.Native.Nat.{ℕ}
use native.Mathlib.Omega.{arith}
use cortono.Prelude.Tests.{if◌then◌else◌, Bool-cases, Option-cases}
use cortono.Prelude.Lists.{all, all-concat}
use cortono.Prelude.Texts.{Text, text_eq, text_eq_iff, is_prefix, avoids}
use cortono.Prelude.Replace.{
  replace_from, replace_all, replace_from-avoids, replace_from-found, replace_from_miss,
  replace_from-nil,
}

pub record Entry : Type 0 where
  pub key : Text
  pub value : Text

pub data Piece : Type 0 where
  plain : Text → Piece
  slot : Text → Piece

-- the value of the first entry with this key
abbrev pub find_value : Text → List Entry → Option Text
find_value key [] = none
find_value key (e ∷ es) = if text_eq e.key key then some e.value else find_value key es

find_value-concat :
    (key : Text) (es : List Entry) (e : Entry)
    → find_value key (es ++ e ∷ []) ≡ elim (find_value key es) [
      | none ↦ if text_eq e.key key then some e.value else none
      | some value ↦ some value
    ]
find_value-concat key [] e = refl
find_value-concat key (f ∷ es) e = ground (arith, find_value-concat key es e)

module _ (mark : ℕ) where
  abbrev pub image : Text → Option Text → Text
  image key none = mark ∷ key
  image key (some value) = value

  abbrev pub shown : List Entry → Piece → Text
  shown es (plain s) = s
  shown es (slot key) = image key (find_value key es)

  -- The text in which the slots of the entries are filled.
  abbrev pub render : List Entry → List Piece → Text
  render es [] = []
  render es (p ∷ ps) = shown es p ++ render es ps

  -- The loop of replacements.
  abbrev pub substitute : List Entry → Text → Text
  substitute [] s = s
  substitute (e ∷ es) s = substitute es (replace_all (mark ∷ e.key) e.value s)

-- Keys are told apart by `is_key`: none is a proper prefix of another.
abbrev pub IsPrefixFree : (Text → Bool) → Type 0
IsPrefixFree is_key =
    (k l rest : Text) → is_key k ≡ true → is_key l ≡ true → is_prefix k (l ++ rest) ≡ text_eq k l

abbrev pub is_clean : ℕ → (Text → Bool) → Piece → Bool
is_clean mark is_key (plain s) = avoids mark s
is_clean mark is_key (slot key) = is_key key && avoids mark key

abbrev pub is_plain_entry : ℕ → (Text → Bool) → Entry → Bool
is_plain_entry mark is_key e = is_key e.key && avoids mark e.value

find_value-avoids :
    (mark : ℕ) (is_key : Text → Bool) (key : Text) (es : List Entry) (value : Text)
    → all (is_plain_entry mark is_key) es ≡ true
    → find_value key es ≡ some value
    → avoids mark value ≡ true
find_value-avoids mark is_key key [] value h e = cc
find_value-avoids mark is_key key (f ∷ es) value h e =
    ground (arith, find_value-avoids mark is_key key es value)

module _ (mark : ℕ) (is_key : Text → Bool) (free : IsPrefixFree is_key) where
  module _ (e : Entry) (good : is_plain_entry mark is_key e ≡ true) where
    abbrev replaced : Text → Text
    replaced = replace_from (mark ∷ e.key) e.value 0

    replaced_same :
        (key rest : Text) → e.key ≡ key → replaced ((mark ∷ key) ++ rest) ≡ e.value ++ replaced rest
    replaced_same key rest same = rw (← same) (replace_from-found _ _ _ rest)

    replaced_other :
        (key rest : Text)
        → is_key key ≡ true
        → avoids mark key ≡ true
        → text_eq e.key key ≡ false
        → replaced ((mark ∷ key) ++ rest) ≡ (mark ∷ key) ++ replaced rest
    replaced_other key rest k h ne =
        let missed : is_prefix e.key (key ++ rest) ≡ false = free _ _ rest (ground arith) k ∙ ne in
        replace_from_miss _ _ mark (key ++ rest) (ground arith)
        ∙ ap (mark ∷◌) (replace_from-avoids mark _ _ key rest h)

    -- One replacement, at one piece.
    replaced-shown :
        (es : List Entry) (p : Piece) (rest : Text)
        → all (is_plain_entry mark is_key) es ≡ true
        → is_clean mark is_key p ≡ true
        → replaced (shown mark es p ++ rest) ≡ shown mark (es ++ e ∷ []) p ++ replaced rest
    replaced-shown es (plain s) rest h c = replace_from-avoids mark _ _ s rest c
    replaced-shown es (slot key) rest h c = elim (Option-cases (find_value key es)) [
      | inr (value, found) ↦
          rw (find_value-concat key es e, found)
            (replace_from-avoids mark _ _ value rest
              (find_value-avoids mark is_key key es value h found))
      | inl missing ↦ elim (Bool-cases (text_eq e.key key)) [
        | inl same ↦
            rw (find_value-concat key es e, missing, same)
              (replaced_same key rest ((text_eq_iff _ _).0 same))
        | inr other ↦
            rw (find_value-concat key es e, missing, other)
              (replaced_other key rest (ground arith) (ground arith) other)
      ]
    ]

    replaced-render :
        (es : List Entry) (ps : List Piece)
        → all (is_plain_entry mark is_key) es ≡ true
        → all (is_clean mark is_key) ps ≡ true
        → replaced (render mark es ps) ≡ render mark (es ++ e ∷ []) ps
    replaced-render es [] h c = replace_from-nil _ _
    replaced-render es (p ∷ ps) h c =
        replaced-shown es p (render mark es ps) h (ground arith)
        ∙ ap (shown mark (es ++ e ∷ []) p ++◌) (replaced-render es ps h (ground arith))

  substitute-render_from :
      (es done : List Entry) (ps : List Piece)
      → all (is_plain_entry mark is_key) es ≡ true
      → all (is_plain_entry mark is_key) done ≡ true
      → all (is_clean mark is_key) ps ≡ true
      → substitute mark es (render mark done ps) ≡ render mark (done ++ es) ps
  unfolding replace_all
  substitute-render_from [] done ps h k c = rw append-nil
  substitute-render_from (e ∷ es) done ps h k c =
      ap (substitute mark es) (replaced-render e (ground arith) done ps k c)
      ∙ substitute-render_from es (done ++ e ∷ []) ps (ground arith)
          (all-concat (is_plain_entry mark is_key) done e k (ground arith)) c
      ∙ ap (λ fs. render mark fs ps) (append_assoc done (e ∷ []) es)

  -- The replacements fill each slot by the first entry with its key, and change nothing else.
  pub substitute-render :
      (es : List Entry) (ps : List Piece)
      → all (is_plain_entry mark is_key) es ≡ true
      → all (is_clean mark is_key) ps ≡ true
      → substitute mark es (render mark [] ps) ≡ render mark es ps
  substitute-render es ps h c = substitute-render_from es [] ps h refl c

module _ (mark : ℕ) (is_key : Text → Bool) where
  abbrev settled : Text → Option Text → Piece
  settled key none = slot key
  settled key (some value) = plain value

  -- Filled text, as a template in which only the unknown slots are left.
  abbrev pub settle : List Entry → List Piece → List Piece
  settle es [] = []
  settle es (plain s ∷ ps) = plain s ∷ settle es ps
  settle es (slot key ∷ ps) = settled key (find_value key es) ∷ settle es ps

  module _ (es : List Entry) where
    pub render-settle_nil : (ps : List Piece) → render mark [] (settle es ps) ≡ render mark es ps
    render-settle_nil [] = refl
    render-settle_nil (plain s ∷ ps) = ap (s ++◌) (render-settle_nil ps)
    render-settle_nil (slot key ∷ ps) = elim (Option-cases (find_value key es)) [
      | inl e ↦ rw (e, render-settle_nil ps)
      | inr (value, e) ↦ rw (e, render-settle_nil ps)
    ]

    pub render-settle : (ps : List Piece) → render mark es (settle es ps) ≡ render mark es ps
    render-settle [] = refl
    render-settle (plain s ∷ ps) = ap (s ++◌) (render-settle ps)
    render-settle (slot key ∷ ps) = elim (Option-cases (find_value key es)) [
      | inl e ↦ rw (e, settled, shown, e, render-settle ps)
      | inr (value, e) ↦ rw (e, render-settle ps)
    ]

    pub settle-is_clean :
        (ps : List Piece)
        → all (is_plain_entry mark is_key) es ≡ true
        → all (is_clean mark is_key) ps ≡ true
        → all (is_clean mark is_key) (settle es ps) ≡ true
    settle-is_clean [] h c = refl
    settle-is_clean (plain s ∷ ps) h c = ground (arith, settle-is_clean ps h)
    settle-is_clean (slot key ∷ ps) h c = elim (Option-cases (find_value key es)) [
      | inl e ↦ rw e (ground (arith, settle-is_clean ps h))
      | inr (value, e) ↦
          rw e
            (ground (arith, settle-is_clean ps h, find_value-avoids mark is_key key es value h e))
    ]
