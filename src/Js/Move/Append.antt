-- ===== src/Js/Move/Append.antt =====
-- Positions in the front part of a list.
use mihomo_cp.Prelude.{
  ℕ, zero, suc, ◌<◌, ◌≤◌, ◌≡◌, refl, ap, inl, inr, Bool, List, [], ◌∷◌, ◌++◌, some, some_inj,
  Bool-cases, Option-cases, find, length, arith, ◌⊎◌,
}
use mihomo_cp.Js.Move.{get_elem?, remove_at, insert_at, find_index}

module _ {A : Type 0} where
  pub get_elem?-append :
      (i : ℕ) (a : A) (xs ys : List A) → get_elem? xs i ≡ some a → get_elem? (xs ++ ys) i ≡ some a
  get_elem?-append i a [] ys e = cc
  get_elem?-append zero a (x ∷ xs) ys e = e
  get_elem?-append (suc i) a (x ∷ xs) ys e = get_elem?-append i a xs ys e

  pub remove_at-append :
      (i : ℕ) (xs ys : List A) → i < length xs → remove_at i (xs ++ ys) ≡ remove_at i xs ++ ys
  remove_at-append i [] ys h = absurd (omega arith)
  remove_at-append zero (x ∷ xs) ys h = refl
  remove_at-append (suc i) (x ∷ xs) ys h =
      ap (λ (zs : List A). x ∷ zs) (remove_at-append i xs ys (omega arith))

  pub insert_at-append :
      (j : ℕ) (a : A) (xs ys : List A)
      → j ≤ length xs
      → insert_at j a (xs ++ ys) ≡ insert_at j a xs ++ ys
  insert_at-append zero a xs ys h = refl
  insert_at-append (suc j) a [] ys h = absurd (omega arith)
  insert_at-append (suc j) a (x ∷ xs) ys h =
      ap (λ (zs : List A). x ∷ zs) (insert_at-append j a xs ys (omega arith))

  pub find_index-append :
      (p : A → Bool) (i : ℕ) (xs ys : List A)
      → find_index p xs ≡ some i
      → find_index p (xs ++ ys) ≡ some i
  find_index-append p i [] ys e = cc
  find_index-append p i (x ∷ xs) ys e = elim (Bool-cases (p x)) [
    | inl h ↦ rw (find_index, h) (rw (find_index, h) at e)
    | inr h ↦ elim (Option-cases (find_index p xs)) [
      | inl n ↦ cc (rw (find_index, h, n) at e)
      | inr (k, s) ↦ rw (find_index, h, find_index-append p k xs ys s) (rw (find_index, h, s) at e)
    ]
  ]

  -- What is found is found in front, or is the last element.
  pub find-concat :
      (p : A → Bool) (xs : List A) (m a : A)
      → find p (xs ++ m ∷ []) ≡ some a
      → (find p xs ≡ some a) ⊎ (m ≡ a)
  find-concat p [] m a e = elim (Bool-cases (p m)) [
    | inl h ↦ inr (some_inj (rw (find, h) at e))
    | inr h ↦ cc (rw (find, h) at e)
  ]
  find-concat p (x ∷ xs) m a e = elim (Bool-cases (p x)) [
    | inl h ↦ inl (rw (find, h) (rw (find, h) at e))
    | inr h ↦ elim (find-concat p xs m a (rw (find, h) at e)) [
      | inl k ↦ inl (rw (find, h) k)
      | inr k ↦ inr k
    ]
  ]
