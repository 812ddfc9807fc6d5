-- ===== src/Prelude/Kept.antt =====
-- What `filter` keeps.
use mihomo_cp.Prelude.{
  all, arith, ◌≡◌, sym, ap, ◌∙◌, ◌↔◌, inl, inr, Bool, true, false, List, [], ◌∷◌, Bool-cases, In,
  keep,
}
use mihomo_cp.Prelude.Unique.{Unique}

pub In-keep :
    {A : Type 0} (p : A → Bool) (a : A) (xs : List A) → In a (keep p xs) ↔ (In a xs × (p a ≡ true))
In-keep p a [] = (λ m. absurd m, λ m. m.0)
In-keep p a (x ∷ xs) = elim (Bool-cases (p x)) [
  | inl holds ↦
      rw (holds, keep)
        (
          λ m. elim m [
            | inl e ↦ (inl e, ap p e ∙ holds)
            | inr k ↦ let (h, t) = (In-keep p a xs).0 k in (inr h, t)
          ],
          λ m. elim (m.0) [ inl e ↦ inl e | inr k ↦ inr ((In-keep p a xs).1 (k, m.1)) ],
        )
  | inr fails ↦
      rw (fails, keep)
        (
          λ m. let (h, t) = (In-keep p a xs).0 m in (inr h, t),
          λ m. elim (m.0) [
            | inl e ↦ let bad : true ≡ false = sym (m.1) ∙ ap p e ∙ fails in cc
            | inr k ↦ (In-keep p a xs).1 (k, m.1)
          ],
        )
]

pub Unique-keep : {A : Type 0} (p : A → Bool) (xs : List A) → Unique xs → Unique (keep p xs)
Unique-keep p [] u = tt
Unique-keep p (y ∷ ys) (f, u) = elim (Bool-cases (p y)) [
  | inl h ↦ rw (keep, h) (λ m. f (((In-keep p y ys).0 m).0), Unique-keep p ys u)
  | inr h ↦ rw (keep, h) (Unique-keep p ys u)
]

pub all-In :
    {A : Type 0} (p : A → Bool) (xs : List A) (a : A) → all p xs ≡ true → In a xs → p a ≡ true
all-In p [] a h m = absurd m
all-In p (x ∷ xs) a h (inl e) = rw e (ground (arith, h))
all-In p (x ∷ xs) a h (inr m) = all-In p xs a (ground (arith, h)) m
