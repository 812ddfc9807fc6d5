-- ===== src/Traffic/Patterns.antt =====
-- The patterns of a provider, shown in the dialog and read back.
use mihomo_cp.Prelude.{◌≡◌, refl, ap, ◌∙◌, false, List, [], ◌∷◌, ◌++◌, keep, All}
use mihomo_cp.Js.Text.{Text, trim, is_empty}
use mihomo_cp.Traffic.{
  is_comma, onto_first, split_commas, trimmed_pieces, patterns_of, join_patterns,
}

abbrev pub NoComma : Text → Type 0
NoComma s = All (λ c. is_comma c ≡ false) s

-- A pattern that the dialog keeps: without a comma, without white space at its ends, not empty.
pub record Clean (p : Text) : Type 0 where
  pub plain : NoComma p
  pub trimmed : trim p ≡ p
  pub full : is_empty p ≡ false

split_comma : (p s : Text) → NoComma p → split_commas (p ++ 44 ∷ s) ≡ p ∷ split_commas s
unfolding split_commas
split_comma [] s h = refl
split_comma (c ∷ p) s (k, h) = rw (k, split_comma p s h) refl

split_plain : (p : Text) → NoComma p → split_commas p ≡ p ∷ []
unfolding split_commas
split_plain [] h = refl
split_plain (c ∷ p) (k, h) = rw (k, split_plain p h) refl

trim_space : (s : Text) → trim (32 ∷ s) ≡ trim s
unfolding trim
trim_space s = refl

onto_first_space :
    (pieces : List Text) → trimmed_pieces (onto_first 32 pieces) ≡ trimmed_pieces pieces
unfolding trim
onto_first_space [] = refl
onto_first_space (p ∷ pieces) = refl

trimmed_cons :
    (p : Text) (pieces : List Text)
    → Clean p
    → trimmed_pieces (p ∷ pieces) ≡ p ∷ trimmed_pieces pieces
trimmed_cons p pieces c =
    let full : is_empty (trim p) ≡ false = ap is_empty c.trimmed ∙ c.full in
    rw (keep, full) (ap (λ (q : Text). q ∷ trimmed_pieces pieces) c.trimmed)

-- Patterns that are not empty and have no comma and no white space at their ends, shown in the dialog and saved without
-- a change, are the same patterns in the same order.
pub patterns_of-join_patterns :
    (ps : List Text) → All Clean ps → patterns_of (join_patterns ps) ≡ ps
unfolding patterns_of join_patterns split_commas
patterns_of-join_patterns [] h = refl
patterns_of-join_patterns (p ∷ []) (c, h) =
    ap trimmed_pieces (split_plain p c.plain) ∙ trimmed_cons p [] c
patterns_of-join_patterns (p ∷ q ∷ ps) (c, h) =
    ap trimmed_pieces (split_comma p (32 ∷ join_patterns (q ∷ ps)) c.plain)
    ∙ trimmed_cons p (split_commas (32 ∷ join_patterns (q ∷ ps))) c
    ∙ ap (λ (rest : List Text). p ∷ rest)
        (onto_first_space (split_commas (join_patterns (q ∷ ps)))
          ∙ patterns_of-join_patterns (q ∷ ps) h)
