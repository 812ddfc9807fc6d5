-- ===== src/NodeInventory/Options/Sorting.antt =====
-- The sort of the country options: its members, and its order.
use mihomo_cp.Prelude.{
  ◌≡◌, refl, sym, ◌↔◌, ◌⊎◌, inl, inr, true, false, List, [], ◌∷◌, Bool-cases, In, arith,
}
use mihomo_cp.Prelude.Unique.{Unique}
use mihomo_cp.Js.Text.{Text}
use mihomo_cp.NodeInventory.Options.{text_le, insert, sort}

-- Sorting, as needed here: the members stay, none is doubled, and neighbours are in order.
In-insert : (a x : Text) (ys : List Text) → In a (insert x ys) ↔ ((a ≡ x) ⊎ In a ys)
unfolding insert
In-insert a x [] = (λ m. m, λ m. m)
In-insert a x (y ∷ ys) = elim (Bool-cases (text_le x y)) [
  | inl le ↦ rw le (λ m. m, λ m. m)
  | inr gt ↦ rw gt (
    λ m. elim m [
      | inl e ↦ inr (inl e)
      | inr k ↦ elim ((In-insert a x ys).0 k) [ inl e ↦ inl e | inr h ↦ inr (inr h) ]
    ],
    λ m. elim m [
      | inl e ↦ inr ((In-insert a x ys).1 (inl e))
      | inr k ↦ elim k [ inl e ↦ inl e | inr h ↦ inr ((In-insert a x ys).1 (inr h)) ]
    ],
  )
]

pub In-sort : (a : Text) (xs : List Text) → In a (sort xs) ↔ In a xs
unfolding sort
In-sort a [] = (λ m. m, λ m. m)
In-sort a (x ∷ xs) = (
  λ m. elim ((In-insert a x (sort xs)).0 m) [ inl e ↦ inl e | inr k ↦ inr ((In-sort a xs).0 k) ],
  λ m. (In-insert a x (sort xs)).1 (elim m [ inl e ↦ inl e | inr k ↦ inr ((In-sort a xs).1 k) ]),
)

insert-Unique : (x : Text) (ys : List Text) → ¬ In x ys → Unique ys → Unique (insert x ys)
unfolding insert
insert-Unique x [] n u = (n, u)
insert-Unique x (y ∷ ys) n u = elim (Bool-cases (text_le x y)) [
  | inl le ↦ rw le (n, u)
  | inr gt ↦ rw gt (
    λ m. elim ((In-insert y x ys).0 m) [ inl e ↦ n (inl (sym e)) | inr k ↦ u.0 k ],
    insert-Unique x ys (λ k. n (inr k)) u.1,
  )
]

pub sort-Unique : (xs : List Text) → Unique xs → Unique (sort xs)
unfolding sort
sort-Unique [] u = u
sort-Unique (x ∷ xs) (f, u) =
    insert-Unique x (sort xs) (λ m. f ((In-sort x xs).0 m)) (sort-Unique xs u)

-- Each member is at most the one behind it.
abbrev pub IsSorted : List Text → Type 0
IsSorted [] = Unit
IsSorted (x ∷ []) = Unit
IsSorted (x ∷ y ∷ ys) = (text_le x y ≡ true) × IsSorted (y ∷ ys)

text_le_total : (s t : Text) → text_le s t ≡ false → text_le t s ≡ true
unfolding text_le
text_le_total [] t e = cc
text_le_total (_ ∷ _) [] e = refl
text_le_total (a ∷ s) (b ∷ t) e = ground (arith, text_le_total s t)

insert-IsSorted : (x : Text) (ys : List Text) → IsSorted ys → IsSorted (insert x ys)
unfolding insert
insert-IsSorted x [] h = tt
insert-IsSorted x (y ∷ []) h = elim (Bool-cases (text_le x y)) [
  | inl le ↦ rw le (le, tt)
  | inr gt ↦ rw gt (text_le_total x y gt, tt)
]
insert-IsSorted x (y ∷ z ∷ zs) (first, h) = elim (Bool-cases (text_le x y)) [
  | inl le ↦ rw le (le, (first, h))
  | inr gt ↦ rw gt (elim (Bool-cases (text_le x z)) [
    | inl le ↦ rw le (text_le_total x y gt, (le, h))
    | inr far ↦ rw far (first, rw far at (insert-IsSorted x (z ∷ zs) h))
  ])
]

pub sort-IsSorted : (xs : List Text) → IsSorted (sort xs)
unfolding sort
sort-IsSorted [] = tt
sort-IsSorted (x ∷ xs) = insert-IsSorted x (sort xs) (sort-IsSorted xs)
