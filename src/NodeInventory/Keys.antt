-- ===== src/NodeInventory/Keys.antt =====
-- The loop that makes a key unique: it ends within its fuel, and its result is a new key made from
-- the row's own key.
use mihomo_cp.Prelude.{
  ℕ, zero, suc, ◌+◌, ◌≤◌, ◌≡◌, refl, ap, ◌⊎◌, inl, inr, false, List, [], ◌∷◌, none, some,
  Bool-cases, Option-cases, In, All, length, length-append, arith,
}
use mihomo_cp.Prelude.Unique.{Unique, pigeonhole}
use mihomo_cp.Js.Text.{Text}
use mihomo_cp.Js.Text.Laws.{append_cancel_left}
use mihomo_cp.Js.Text.Decimal.{decimal, decimal_injective}
use mihomo_cp.Js.TextSet.{has, has_iff}
use mihomo_cp.NodeInventory.Rows.{numbered, fresh}

numbered_injective : (base : Text) (m n : ℕ) → numbered base m ≡ numbered base n → m ≡ n
unfolding numbered
numbered_injective base m n e = decimal_injective m n (cc (append_cancel_left base _ _ e))

base-ne-numbered : (base : Text) (n : ℕ) → ¬ (base ≡ numbered base n)
unfolding numbered
base-ne-numbered base n e =
    absurd (omega (arith, ap length e, length-append base (b'#' ∷ decimal n)))

-- The keys that the loop tries after the first one.
numbered_keys : ℕ → Text → ℕ → List Text
numbered_keys zero base suffix = []
numbered_keys (suc fuel) base suffix = numbered base suffix ∷ numbered_keys fuel base (suffix + 1)

length-numbered_keys : (fuel : ℕ) (base : Text) (n : ℕ) → length (numbered_keys fuel base n) ≡ fuel
unfolding numbered_keys
length-numbered_keys zero base n = refl
length-numbered_keys (suc fuel) base n = ap suc (length-numbered_keys fuel base (n + 1))

In-numbered_keys :
    (fuel : ℕ) (base key : Text) (n : ℕ)
    → In key (numbered_keys fuel base n)
    → (m : ℕ) × (n ≤ m) × (key ≡ numbered base m)
unfolding numbered_keys
In-numbered_keys zero base key n h = absurd h
In-numbered_keys (suc fuel) base key n (inl e) = (n, omega arith, e)
In-numbered_keys (suc fuel) base key n (inr h) =
    let (m, le, e) = In-numbered_keys fuel base key (n + 1) h in (m, omega arith, e)

numbered_keys-Unique : (fuel : ℕ) (base : Text) (n : ℕ) → Unique (numbered_keys fuel base n)
unfolding numbered_keys
numbered_keys-Unique zero base n = tt
numbered_keys-Unique (suc fuel) base n = (
  λ h.
      let (m, le, e) = In-numbered_keys fuel base (numbered base n) (n + 1) h in
      absurd (omega (arith, numbered_injective base n m e)),
  numbered_keys-Unique fuel base (n + 1),
)

-- If the fuel runs out, every key tried was in use.
fresh-none :
    (fuel : ℕ) (used : List Text) (base key : Text) (n : ℕ)
    → fresh (suc fuel) used base key n ≡ none
    → All (λ k. In k used) (key ∷ numbered_keys fuel base n)
unfolding fresh numbered_keys
fresh-none zero used base key n e = elim (Bool-cases (has used key)) [
  | inl taken ↦ ((has_iff used key).0 taken, tt)
  | inr free ↦ cc (rw free at e)
]
fresh-none (suc fuel) used base key n e = elim (Bool-cases (has used key)) [
  | inl taken ↦ (
    (has_iff used key).0 taken,
    fresh-none fuel used base (numbered base n) (n + 1) (rw taken at e),
  )
  | inr free ↦ cc (rw free at e)
]

-- The loop ends: one round more than there are used keys is enough.
pub fresh-total :
    (used : List Text) (base : Text)
    → (key : Text) × (fresh (suc (length used)) used base base 2 ≡ some key)
fresh-total used base = elim (Option-cases (fresh (suc (length used)) used base base 2)) [
  | inr found ↦ found
  | inl out ↦ absurd (
      omega (
        arith,
        length-numbered_keys (length used) base 2,
        pigeonhole (base ∷ numbered_keys (length used) base 2) used
            (
              λ h.
                  let (m, le, e) = In-numbered_keys (length used) base base 2 h in
                  base-ne-numbered base m e,
              numbered_keys-Unique (length used) base 2,
            )
            (fresh-none (length used) used base base 2 out),
      ))
]

-- A key made from `base`: the key itself, or with a number after `#`.
abbrev pub KeyOf : Text → Text → Type 0
KeyOf base key = (key ≡ base) ⊎ ((n : ℕ) × (key ≡ numbered base n))

pub fresh-new :
    (fuel : ℕ) (used : List Text) (base key : Text) (n : ℕ) {found : Text}
    → fresh fuel used base key n ≡ some found
    → KeyOf base key
    → (has used found ≡ false) × KeyOf base found
unfolding fresh
fresh-new zero used base key n e k = cc
fresh-new (suc fuel) used base key n e k = elim (Bool-cases (has used key)) [
  | inl taken ↦ fresh-new fuel used base (numbered base n) (n + 1) (rw taken at e) (inr (n, refl))
  | inr free ↦ let same : some key ≡ some _ = rw free at e in ground arith
]

pub fresh_unused :
    (fuel : ℕ) (used : List Text) (base : Text)
    → has used base ≡ false
    → fresh (suc fuel) used base base 2 ≡ some base
unfolding fresh
fresh_unused fuel used base free = rw free
