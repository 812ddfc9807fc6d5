-- ===== src/I18n/Interpolate.antt =====
-- Interpolation of one parameter.
use mihomo_cp.Prelude.{
  ℕ, zero, ◌-◌, ◌≡◌, refl, ◌∙◌, ap, true, false, List, [], ◌∷◌, ◌++◌, ◌==◌, length, drop, All,
  arith,
}
use mathlib.Core.Path.{ap₂}
use mihomo_cp.Js.Text.{Text, starts_with}
use mihomo_cp.Js.Text.Laws.{starts_with-append}
use mihomo_cp.I18n.{expand, replace_from, replace_all, placeholder}

-- A text with places for one parameter.
pub data Piece : Type 0 where
  literal : Text → Piece
  here : Piece

-- A value that is inserted verbatim: it holds no `$`.
abbrev pub IsPlain : Text → Type 0
IsPlain = All (λ c. (c == b'$') ≡ false)

-- The literals hold no `{`.
abbrev pub AreOpen : List Piece → Type 0
AreOpen [] = Unit
AreOpen (literal s ∷ ps) = All (λ c. (c == b'{') ≡ false) s × AreOpen ps
AreOpen (here ∷ ps) = AreOpen ps

-- The pieces with a text for the parameter.
abbrev pub with_text : Text → List Piece → Text
with_text v [] = []
with_text v (literal s ∷ ps) = s ++ with_text v ps
with_text v (here ∷ ps) = v ++ with_text v ps

expand_plain : (m b a v : Text) → IsPlain v → expand m b a v ≡ v
unfolding expand
expand_plain m b a [] h = refl
expand_plain m b a (c ∷ []) h = refl
expand_plain m b a (c ∷ d ∷ v) (p, h) = rw p (ap (λ t. c ∷ t) (expand_plain m b a (d ∷ v) h))

tail_length : (s : Text) → length (b'{' ∷ s) - 1 ≡ length s
tail_length s = omega arith

module _ (name value : Text) (plain : IsPlain value) where
  abbrev replaced : ℕ → Text → Text → Text
  replaced = replace_from (placeholder name) value

  -- The rest of a match is passed over.
  skipped :
      (s rest out : Text)
      → ((before : Text) → replaced zero before rest ≡ out)
      → (before : Text) → replaced (length s) before (s ++ rest) ≡ out
  unfolding replace_from
  skipped [] rest out k before = k before
  skipped (c ∷ s) rest out k before = skipped s rest out k (before ++ c ∷ [])

  not_open :
      (c : ℕ) (s : Text) → (c == b'{') ≡ false → starts_with (c ∷ s) (placeholder name) ≡ false
  unfolding starts_with
  not_open c s p = rw p

  at_match :
      (c : ℕ) (s before : Text)
      → starts_with (c ∷ s) (placeholder name) ≡ true
      → replaced zero before (c ∷ s)
        ≡ expand (placeholder name) before (drop (length (placeholder name)) (c ∷ s)) value
          ++ replaced (length (placeholder name) - 1) (before ++ c ∷ []) s
  unfolding replace_from
  at_match c s before e i = elim (e i) [
    | true ↦
        expand (placeholder name) before (drop (length (placeholder name)) (c ∷ s)) value
        ++ replaced (length (placeholder name) - 1) (before ++ c ∷ []) s
    | false ↦ c ∷ replaced zero (before ++ c ∷ []) s
  ]

  at_other :
      (c : ℕ) (s before : Text)
      → starts_with (c ∷ s) (placeholder name) ≡ false
      → replaced zero before (c ∷ s) ≡ c ∷ replaced zero (before ++ c ∷ []) s
  unfolding replace_from
  at_other c s before e i = elim (e i) [
    | true ↦
        expand (placeholder name) before (drop (length (placeholder name)) (c ∷ s)) value
        ++ replaced (length (placeholder name) - 1) (before ++ c ∷ []) s
    | false ↦ c ∷ replaced zero (before ++ c ∷ []) s
  ]

  -- A literal without `{` stays.
  passed :
      (s rest out : Text)
      → All (λ c. (c == b'{') ≡ false) s
      → ((before : Text) → replaced zero before rest ≡ out)
      → (before : Text) → replaced zero before (s ++ rest) ≡ s ++ out
  passed [] rest out h k before = k before
  passed (c ∷ s) rest out (p, h) k before =
      at_other c (s ++ rest) before (not_open c (s ++ rest) p)
      ∙ ap (λ t. c ∷ t) (passed s rest out h k (before ++ c ∷ []))

  -- A placeholder becomes the value.
  matched :
      (rest out : Text)
      → ((before : Text) → replaced zero before rest ≡ out)
      → (before : Text) → replaced zero before (placeholder name ++ rest) ≡ value ++ out
  matched rest out k before =
      at_match b'{' ((name ++ b'}' ∷ []) ++ rest) before
        (starts_with-append (placeholder name) rest)
      ∙ ap₂ (λ a b. a ++ b)
          (expand_plain (placeholder name) before
            (drop (length (placeholder name)) (placeholder name ++ rest)) value plain)
          (rw (tail_length (name ++ b'}' ∷ []))
            (skipped (name ++ b'}' ∷ []) rest out k (before ++ b'{' ∷ [])))

  filled :
      (ps : List Piece)
      → AreOpen ps
      → (before : Text)
      → replaced zero before (with_text (placeholder name) ps) ≡ with_text value ps
  filled [] h before = unfold replace_from in refl
  filled (literal s ∷ ps) (o, h) before = passed s _ _ o (filled ps h) before
  filled (here ∷ ps) h before = matched _ _ (filled ps h) before

  -- In a text whose other parts hold no `{`, interpolating a value without `$` puts it at every
  -- place of its parameter and changes nothing else.
  replace_all-with_text :
      (ps : List Piece)
      → AreOpen ps
      → replace_all (with_text (placeholder name) ps) (placeholder name) value ≡ with_text value ps
  unfolding replace_all
  replace_all-with_text ps h = filled ps h []
