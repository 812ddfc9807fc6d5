-- ===== src/Js/Text/Split.antt =====
-- `split` at one character and `join`, and that they undo each other.
use mihomo_cp.Prelude.{
  Bool-cases, inl, inr, ℕ, true, false, ◌≡◌, refl, ap, List, [], ◌∷◌, ◌++◌, ◌==◌, if◌then◌else◌,
  All,
}
use mihomo_cp.Js.Text.{Text}

-- A character in front of the first piece.
abbrev grow : ℕ → List Text → List Text
grow c [] = (c ∷ []) ∷ []
grow c (piece ∷ pieces) = (c ∷ piece) ∷ pieces

-- `s.split(sep)` for a separator of one character.
unfoldable pub split : ℕ → Text → List Text
split sep [] = [] ∷ []
split sep (c ∷ s) = let rest = split sep s in if c == sep then [] ∷ rest else grow c rest

-- `pieces.join(sep)`.
unfoldable pub join : Text → List Text → Text
join sep [] = []
join sep (p ∷ []) = p
join sep (p ∷ q ∷ ps) = p ++ (sep ++ join sep (q ∷ ps))

abbrev pub Free : ℕ → Text → Type 0
Free sep s = All (λ c. (c == sep) ≡ false) s

pub split-Free : (sep : ℕ) (p : Text) → Free sep p → split sep p ≡ p ∷ []
unfolding split
split-Free sep [] h = refl
split-Free sep (c ∷ p) (k, h) = rw (k, split-Free sep p h) refl

pub split-append :
    (sep : ℕ) (p s : Text)
    → (sep == sep) ≡ true
    → Free sep p
    → split sep (p ++ sep ∷ s) ≡ p ∷ split sep s
unfolding split
split-append sep [] s r h = rw r refl
split-append sep (c ∷ p) s r (k, h) = rw (k, split-append sep p s r h) refl

-- There is a first piece.
pub split-cons : (sep : ℕ) (s : Text) → (p : Text) × ((ps : List Text) × (split sep s ≡ p ∷ ps))
unfolding split
split-cons sep [] = ([], ([], refl))
split-cons sep (c ∷ s) = elim (Bool-cases (c == sep)) [
  | inl e ↦ ([], (split sep s, rw e refl))
  | inr e ↦
      let (p, rest) = split-cons sep s in let (ps, eq) = rest in (c ∷ p, (ps, rw (e, eq) refl))
]

-- Behind a separator the pieces go on.
pub split-between :
    (sep : ℕ) (s t : Text)
    → (sep == sep) ≡ true
    → split sep (s ++ sep ∷ t) ≡ split sep s ++ split sep t
unfolding split
split-between sep [] t r = rw r refl
split-between sep (c ∷ s) t r = elim (Bool-cases (c == sep)) [
  | inl e ↦ rw e (ap (λ (ps : List Text). [] ∷ ps) (split-between sep s t r))
  | inr e ↦
      let (p, rest) = split-cons sep s in
      let (ps, eq) = rest in rw e (rw (split-between sep s t r, eq) refl)
]
