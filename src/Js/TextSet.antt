-- ===== src/Js/TextSet.antt =====
-- A `Set` of strings, as the list of its members in insertion order.
use mihomo_cp.Prelude.{
  ◌≡◌, sym, ◌↔◌, ◌⊎◌, inl, inr, Bool, true, false, ◌||◌, List, [], ◌∷◌, ◌++◌, if◌then◌else◌,
  Bool-cases, In, arith,
}
use mihomo_cp.Prelude.Unique.{Unique, Unique-concat, In-append, In-append_left, In-append_right}
use mihomo_cp.Js.Text.{Text, text_eq}
use mihomo_cp.Js.Text.Laws.{text_eq_iff, text_eq_refl}

-- `set.has(x)`.
unfoldable pub has : List Text → Text → Bool
unfolding text_eq
has [] x = false
has (y ∷ ys) x = text_eq y x || has ys x

-- `set.add(x)`.
unfoldable pub add : List Text → Text → List Text
unfolding has
add ys x = if has ys x then ys else ys ++ x ∷ []

-- `new Set(xs)`, from the members of a set.
unfoldable pub add_all : List Text → List Text → List Text
unfolding add
add_all ys [] = ys
add_all ys (x ∷ xs) = add_all (add ys x) xs

pub has_iff : (ys : List Text) (x : Text) → (has ys x ≡ true) ↔ In x ys
unfolding has
has_iff [] x = (λ e. cc, λ m. absurd m)
has_iff (y ∷ ys) x = (
  λ e. elim (Bool-cases (text_eq y x)) [
    | inl same ↦ inl (sym ((text_eq_iff y x).0 same))
    | inr other ↦ inr ((has_iff ys x).0 (rw other at e))
  ],
  λ m. elim m [ inl e ↦ rw (e, text_eq_refl y) | inr k ↦ ground (arith, (has_iff ys x).1 k) ],
)

pub has-eq-false : (ys : List Text) (x : Text) → has ys x ≡ false → ¬ In x ys
has-eq-false ys x e m = cc ((has_iff ys x).1 m)

pub add-Unique : (ys : List Text) (x : Text) → Unique ys → Unique (add ys x)
unfolding add
add-Unique ys x u = elim (Bool-cases (has ys x)) [
  | inl old ↦ rw old u
  | inr new ↦ rw new (Unique-concat ys x u (has-eq-false ys x new))
]

pub In-add : (a : Text) (ys : List Text) (x : Text) → In a (add ys x) ↔ (In a ys ⊎ (a ≡ x))
unfolding add
In-add a ys x = elim (Bool-cases (has ys x)) [
  | inl old ↦ rw old (λ m. inl m, λ m. elim m [ inl k ↦ k | inr e ↦ rw e ((has_iff ys x).0 old) ])
  | inr new ↦ rw new (
    λ m. elim (In-append a ys (x ∷ []) m) [
      | inl k ↦ inl k
      | inr k ↦ elim k [ inl e ↦ inr e | inr bad ↦ absurd bad ]
    ],
    λ m. elim m [
      | inl k ↦ In-append_left a ys (x ∷ []) k
      | inr e ↦ In-append_right a ys (x ∷ []) (inl e)
    ],
  )
]

pub add_all-Unique : (ys xs : List Text) → Unique ys → Unique (add_all ys xs)
unfolding add_all
add_all-Unique ys [] u = u
add_all-Unique ys (x ∷ xs) u = add_all-Unique (add ys x) xs (add-Unique ys x u)

pub In-add_all : (a : Text) (ys xs : List Text) → In a (add_all ys xs) ↔ (In a ys ⊎ In a xs)
unfolding add_all
In-add_all a ys [] = (λ m. inl m, λ m. elim m [ inl k ↦ k | inr bad ↦ absurd bad ])
In-add_all a ys (x ∷ xs) = (
  λ m. elim ((In-add_all a (add ys x) xs).0 m) [
    | inl k ↦ elim ((In-add a ys x).0 k) [ inl h ↦ inl h | inr e ↦ inr (inl e) ]
    | inr k ↦ inr (inr k)
  ],
  λ m. (In-add_all a (add ys x) xs).1 (elim m [
    | inl k ↦ inl ((In-add a ys x).1 (inl k))
    | inr k ↦ elim k [ inl e ↦ inl ((In-add a ys x).1 (inr e)) | inr h ↦ inr h ]
  ]),
)
