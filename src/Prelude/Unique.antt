-- ===== src/Prelude/Unique.antt =====
-- Lists without repetition, and the pigeonhole principle: distinct members of a list are no more
-- than the list is long.
use mihomo_cp.Prelude.{
  suc, ◌≤◌, ◌≡◌, refl, sym, ◌∙◌, ap, ◌⊎◌, inl, inr, ◌≢◌, List, [], ◌∷◌, ◌++◌, In, All, length,
  arith,
}

module _ {A : Type 0} where
  abbrev pub Unique : List A → Type 0
  Unique [] = Unit
  Unique (x ∷ xs) = (¬ In x xs) × Unique xs

  pub In-append : (a : A) (xs ys : List A) → In a (xs ++ ys) → In a xs ⊎ In a ys
  In-append a [] ys m = inr m
  In-append a (x ∷ xs) ys (inl e) = inl (inl e)
  In-append a (x ∷ xs) ys (inr m) = elim (In-append a xs ys m) [
    | inl h ↦ inl (inr h)
    | inr h ↦ inr h
  ]

  pub In-append_left : (a : A) (xs ys : List A) → In a xs → In a (xs ++ ys)
  In-append_left a [] ys m = absurd m
  In-append_left a (x ∷ xs) ys (inl e) = inl e
  In-append_left a (x ∷ xs) ys (inr m) = inr (In-append_left a xs ys m)

  pub In-append_right : (a : A) (xs ys : List A) → In a ys → In a (xs ++ ys)
  In-append_right a [] ys m = m
  In-append_right a (x ∷ xs) ys m = inr (In-append_right a xs ys m)

  pub All-In : (P : A → Type 0) (a : A) (xs : List A) → All P xs → In a xs → P a
  All-In P a [] h m = absurd m
  All-In P a (x ∷ xs) (p, h) (inl e) = rw e p
  All-In P a (x ∷ xs) (p, h) (inr m) = All-In P a xs h m

  pub Unique-concat : (xs : List A) (a : A) → Unique xs → ¬ In a xs → Unique (xs ++ a ∷ [])
  Unique-concat [] a u n = (λ m. m, tt)
  Unique-concat (x ∷ xs) a (f, u) n = (
    λ m. elim (In-append x xs (a ∷ []) m) [
      | inl h ↦ f h
      | inr h ↦ elim h [ inl e ↦ n (inl (sym e)) | inr bad ↦ absurd bad ]
    ],
    Unique-concat xs a u (λ m. n (inr m)),
  )

  -- A list with one occurrence of a member taken out.
  without : (a : A) (xs : List A) → In a xs → List A
  without a [] m = absurd m
  without a (x ∷ xs) (inl e) = xs
  without a (x ∷ xs) (inr m) = x ∷ without a xs m

  length-without : (a : A) (xs : List A) (m : In a xs) → length xs ≡ suc (length (without a xs m))
  unfolding without
  length-without a [] m = absurd m
  length-without a (x ∷ xs) (inl e) = refl
  length-without a (x ∷ xs) (inr m) = ap suc (length-without a xs m)

  In-without : (a b : A) (xs : List A) (m : In a xs) → In b xs → b ≢ a → In b (without a xs m)
  unfolding without
  In-without a b [] m k n = absurd m
  In-without a b (x ∷ xs) (inl e) (inl d) n = absurd (n (d ∙ sym e))
  In-without a b (x ∷ xs) (inl e) (inr k) n = k
  In-without a b (x ∷ xs) (inr m) (inl d) n = inl d
  In-without a b (x ∷ xs) (inr m) (inr k) n = inr (In-without a b xs m k n)

  keep_others :
      (x : A) (zs ys : List A) (m : In x ys)
      → ¬ In x zs
      → All (λ z. In z ys) zs
      → All (λ z. In z (without x ys m)) zs
  keep_others x [] ys m n h = tt
  keep_others x (z ∷ zs) ys m n (k, h) =
      (In-without x z ys m k (λ e. n (inl (sym e))), keep_others x zs ys m (λ q. n (inr q)) h)

  pub pigeonhole : (xs ys : List A) → Unique xs → All (λ x. In x ys) xs → length xs ≤ length ys
  pigeonhole [] ys u h = omega arith
  pigeonhole (x ∷ xs) ys (f, u) (m, h) =
      omega
        (arith, length-without x ys m, pigeonhole xs (without x ys m) u (keep_others x xs ys m f h))
