-- ===== src/Js/Move.antt =====
-- `indexOf`, and `arrayMove` of @dnd-kit/sortable, which the lists that are ordered by dragging use. It
-- is not part of this program: a component takes it as a parameter with the law `MovesItem` below.
pub mod Append
use mihomo_cp.Prelude.{
  ℕ, zero, suc, ◌+◌, ◌-◌, ◌<◌, ◌≤◌, ◌≡◌, ◌≢◌, refl, sym, ap, ◌∙◌, ◌↔◌, ◌⊎◌, inl, inr, Bool, true,
  false, List, [], ◌∷◌, ◌++◌, Option, none, some, some_inj, Bool-cases, Option-cases, In, All, find,
  length, arith,
}
use mihomo_cp.Prelude.Unique.{Unique}
use mihomo_cp.Js.Date.{ℤ, pos, negsuc}

-- `-1` where there is none.
abbrev pub to_index : Option ℕ → ℤ
to_index none = negsuc 0
to_index (some i) = pos i

module _ {A : Type 0} where
  abbrev pub get_elem? : List A → ℕ → Option A
  get_elem? [] i = none
  get_elem? (x ∷ xs) zero = some x
  get_elem? (x ∷ xs) (suc i) = get_elem? xs i

  -- The list without its element at a position.
  abbrev pub remove_at : ℕ → List A → List A
  remove_at i [] = []
  remove_at zero (x ∷ xs) = xs
  remove_at (suc i) (x ∷ xs) = x ∷ remove_at i xs

  -- The list with an element put at a position, or at its end.
  abbrev pub insert_at : ℕ → A → List A → List A
  insert_at zero a xs = a ∷ xs
  insert_at (suc j) a [] = a ∷ []
  insert_at (suc j) a (x ∷ xs) = x ∷ insert_at j a xs

  -- The position of the first element that a test accepts.
  abbrev pub find_index : (A → Bool) → List A → Option ℕ
  find_index p [] = none
  find_index p (x ∷ xs) = elim (p x) [
    | true ↦ some 0
    | false ↦ elim (find_index p xs) [ none ↦ none | some i ↦ some (suc i) ]
  ]

  -- `arrayMove(xs, from, to)` for two positions of the list: the element at `from` is at `to`
  -- afterwards, and the others keep their order.
  abbrev pub MovesItem : (List A → ℤ → ℤ → List A) → Type 0
  MovesItem array_move =
      (xs : List A) (i j : ℕ) (a : A)
      → get_elem? xs i ≡ some a
      → j < length xs
      → array_move xs (pos i) (pos j) ≡ insert_at j a (remove_at i xs)

  pub find-find_index :
      (p : A → Bool) (xs : List A) (a : A)
      → find p xs ≡ some a
      → (i : ℕ) × (find_index p xs ≡ some i)
        × (get_elem? xs i ≡ some a)
        × (i < length xs)
        × (p a ≡ true)
  find-find_index p [] a e = cc
  find-find_index p (x ∷ xs) a e = elim (Bool-cases (p x)) [
    | inl yes_x ↦
        let same : x ≡ a = some_inj (rw (find, yes_x) at e) in
        (0, rw (find_index, yes_x) refl, ap some same, omega arith, rw (← same) yes_x)
    | inr no_x ↦
        let (i, found, there, below, holds) = find-find_index p xs a (rw (find, no_x) at e) in
        (suc i, rw (find_index, no_x, found) refl, there, omega arith, holds)
  ]

  pub In-insert_at : (j : ℕ) (a x : A) (xs : List A) → In x (insert_at j a xs) ↔ ((x ≡ a) ⊎ In x xs)
  In-insert_at zero a x xs = (λ m. m, λ m. m)
  In-insert_at (suc j) a x [] = (λ m. m, λ m. m)
  In-insert_at (suc j) a x (y ∷ ys) = (
    λ m. elim m [
      | inl e ↦ inr (inl e)
      | inr k ↦ elim ((In-insert_at j a x ys).0 k) [ inl e ↦ inl e | inr h ↦ inr (inr h) ]
    ],
    λ m. elim m [
      | inl e ↦ inr ((In-insert_at j a x ys).1 (inl e))
      | inr k ↦ elim k [ inl e ↦ inl e | inr h ↦ inr ((In-insert_at j a x ys).1 (inr h)) ]
    ],
  )

  pub In-remove_at :
      (i : ℕ) (a x : A) (xs : List A)
      → get_elem? xs i ≡ some a
      → In x xs ↔ ((x ≡ a) ⊎ In x (remove_at i xs))
  In-remove_at i a x [] e = cc
  In-remove_at zero a x (y ∷ ys) e = (
    λ m. elim m [ inl h ↦ inl (h ∙ some_inj e) | inr h ↦ inr h ],
    λ m. elim m [ inl h ↦ inl (h ∙ sym (some_inj e)) | inr h ↦ inr h ],
  )
  In-remove_at (suc i) a x (y ∷ ys) e = (
    λ m. elim m [
      | inl h ↦ inr (inl h)
      | inr k ↦ elim ((In-remove_at i a x ys e).0 k) [ inl h ↦ inl h | inr h ↦ inr (inr h) ]
    ],
    λ m. elim m [
      | inl h ↦ inr ((In-remove_at i a x ys e).1 (inl h))
      | inr k ↦ elim k [ inl h ↦ inl h | inr h ↦ inr ((In-remove_at i a x ys e).1 (inr h)) ]
    ],
  )

  pub Unique-insert_at :
      (j : ℕ) (a : A) (xs : List A) → Unique xs → ¬ In a xs → Unique (insert_at j a xs)
  Unique-insert_at zero a xs u n = (n, u)
  Unique-insert_at (suc j) a [] u n = ((λ m. m), tt)
  Unique-insert_at (suc j) a (y ∷ ys) (f, u) n = (
    λ m. elim ((In-insert_at j a y ys).0 m) [ inl e ↦ n (inl (sym e)) | inr k ↦ f k ],
    Unique-insert_at j a ys u (λ m. n (inr m)),
  )

  pub Unique-remove_at :
      (i : ℕ) (a : A) (xs : List A)
      → get_elem? xs i ≡ some a
      → Unique xs
      → Unique (remove_at i xs) × (¬ In a (remove_at i xs))
  Unique-remove_at i a [] e u = cc
  Unique-remove_at zero a (y ∷ ys) e (f, u) = (u, λ m. f (rw (some_inj e) m))
  Unique-remove_at (suc i) a (y ∷ ys) e (f, u) =
      let (rest, gone) = Unique-remove_at i a ys e u in
      (
        (λ m. f ((In-remove_at i a y ys e).1 (inr m)), rest),
        λ m. elim m [ inl h ↦ f ((In-remove_at i a y ys e).1 (inl (sym h))) | inr k ↦ gone k ],
      )

  pub length-remove_at :
      (i : ℕ) (a : A) (xs : List A)
      → get_elem? xs i ≡ some a
      → length xs ≡ suc (length (remove_at i xs))
  length-remove_at i a [] e = cc
  length-remove_at zero a (y ∷ ys) e = refl
  length-remove_at (suc i) a (y ∷ ys) e = ap suc (length-remove_at i a ys e)
