-- ===== src/Js/Text/Occurs.antt =====
-- What the tests `startsWith` and `includes` on texts find.
use mihomo_cp.Prelude.{
  ℕ, ◌≡◌, refl, ap, ◌↔◌, inl, inr, true, [], ◌∷◌, ◌++◌, ◌||◌, Bool-cases, arith,
}
use mihomo_cp.Js.Text.{Text, is_empty, starts_with, includes}

-- The first text is the beginning of the second.
abbrev pub Begins : Text → Text → Type 0
Begins p s = (post : Text) × (s ≡ p ++ post)

-- The first text stands somewhere in the second.
abbrev pub Occurs : Text → Text → Type 0
Occurs p s = (pre : Text) × (post : Text) × (s ≡ pre ++ p ++ post)

head_of : {a b : ℕ} {s t : Text} → (a ∷ s) ≡ (b ∷ t) → (a ≡ b) × (s ≡ t)
head_of e = (cc, cc)

pub starts_with_iff : (s p : Text) → (starts_with s p ≡ true) ↔ Begins p s
unfolding starts_with
starts_with_iff s [] = (λ _. (s, refl), λ _. refl)
starts_with_iff [] (b ∷ p) = (λ e. cc, λ (post, e). cc)
starts_with_iff (a ∷ s) (b ∷ p) = (
  λ e.
      let same : a ≡ b = ground arith in
      let (post, rest) = (starts_with_iff s p).0 (ground arith) in (post, rw (same, rest) refl),
  λ (post, e).
      let (same, rest) = head_of e in
      let later = (starts_with_iff s p).1 (post, rest) in ground arith,
)

pub includes_iff : (s p : Text) → (includes s p ≡ true) ↔ Occurs p s
unfolding includes
includes_iff [] p = (
  λ e. let (post, same) = (starts_with_iff [] p).0 e in ([], post, same),
  λ (pre, post, e).
      elim pre as (λ (q : Text). [] ≡ q ++ p ++ post → starts_with [] p ≡ true) [
        | [] ↦ λ h. (starts_with_iff [] p).1 (post, h)
        | c ∷ q ↦ λ h. cc
      ]
        e,
)
includes_iff (a ∷ s) p = elim (Bool-cases (starts_with (a ∷ s) p)) [
  | inl here ↦
      rw here
        (λ _. let (post, same) = (starts_with_iff (a ∷ s) p).0 here in ([], post, same), λ _. refl)
  | inr not_here ↦ rw not_here (
    λ e.
        let (pre, post, same) = (includes_iff s p).0 e in
        (a ∷ pre, post, ap (λ (t : Text). a ∷ t) same),
    λ (pre, post, e).
        (elim pre as (λ (q : Text). (a ∷ s) ≡ q ++ p ++ post → includes s p ≡ true) [
          | [] ↦ λ h. cc ((starts_with_iff (a ∷ s) p).1 (post, h), not_here)
          | c ∷ q ↦ λ h. (includes_iff s p).1 (q, post, (head_of h).1)
        ])
          e,
  )
]

-- The test of a search: an empty text stands anywhere.
pub search_iff : (s p : Text) → ((is_empty p || includes s p) ≡ true) ↔ Occurs p s
search_iff s [] = (λ _. ([], s, refl), λ _. refl)
search_iff s (c ∷ p) = includes_iff s (c ∷ p)
