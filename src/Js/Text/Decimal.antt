-- ===== src/Js/Text/Decimal.antt =====
-- `String(n)` of a natural number: its decimal digits, and that no two numbers share them.
use mihomo_cp.Prelude.{
  ℕ, zero, suc, ◌+◌, ◌-◌, ◌*◌, ◌/◌, ◌%◌, ◌<◌, ◌≤◌, ◌≡◌, refl, true, false, sym, ◌∙◌, ap, [], ◌∷◌,
  ◌++◌, ltb, if◌then◌else◌, Bool-cases, inl, inr, arith,
}
use mihomo_cp.Js.Text.{Text, codes}

-- The digits of a number below 10 to the power of the fuel, the first digit in front.
digits : ℕ → ℕ → Text
digits zero n = []
digits (suc fuel) n =
    let longer = digits fuel (n / 10) ++ (48 + n % 10) ∷ [] in
    if ltb n 10 then (48 + n) ∷ [] else longer

unfoldable pub decimal : ℕ → Text
unfolding digits
decimal n = digits (suc n) n

-- The number that a string of digits reads as.
read : ℕ → Text → ℕ
read acc [] = acc
read acc (c ∷ s) = read (acc * 10 + (c - 48)) s

read-concat : (acc : ℕ) (s : Text) (c : ℕ) → read acc (s ++ c ∷ []) ≡ read acc s * 10 + (c - 48)
unfolding read
read-concat acc [] c = refl
read-concat acc (d ∷ s) c = read-concat (acc * 10 + (d - 48)) s c

read-digits : (fuel n : ℕ) → n < fuel → read 0 (digits fuel n) ≡ n
unfolding digits
read-digits zero n h = elim h [ ]
read-digits (suc fuel) n h = elim (Bool-cases (ltb n 10)) [
  | inl small ↦ rw small (unfold read in omega arith)
  | inr big ↦ rw big (
      rw (read-concat 0 (digits fuel (n / 10)) (48 + n % 10))
        (rw (read-digits fuel (n / 10) (ground arith)) (omega arith)))
]

pub decimal_injective : (m n : ℕ) → decimal m ≡ decimal n → m ≡ n
unfolding decimal
decimal_injective m n e =
    sym (read-digits (suc m) m (omega arith)) ∙ ap (read 0) e ∙ read-digits (suc n) n (omega arith)

digits_more :
    (fuel n : ℕ) → 10 ≤ n → digits (suc fuel) n ≡ digits fuel (n / 10) ++ (48 + n % 10) ∷ []
unfolding digits
digits_more fuel n h = let big : ltb n 10 ≡ false = ground arith in rw big refl

digits_last : (fuel n : ℕ) → n < 10 → digits (suc fuel) n ≡ (48 + n) ∷ []
unfolding digits
digits_last fuel n h = let small : ltb n 10 ≡ true = ground arith in rw small refl

digits_four :
    (fuel n : ℕ)
    → 1000 ≤ n
    → n < 10_000
    → digits (suc (suc (suc (suc fuel)))) n
      ≡ (48 + n / 1000) ∷ (48 + n / 100 % 10) ∷ (48 + n / 10 % 10) ∷ (48 + n % 10) ∷ []
digits_four fuel n low high =
    let thousands : n / 10 / 10 / 10 ≡ n / 1000 = omega arith in
    let hundreds : n / 10 / 10 ≡ n / 100 = omega arith in
    digits_more (suc (suc (suc fuel))) n (omega arith)
    ∙ ap (λ (s : Text). s ++ (48 + n % 10) ∷ [])
        (digits_more (suc (suc fuel)) (n / 10) (omega arith)
          ∙ ap (λ (s : Text). s ++ (48 + n / 10 % 10) ∷ [])
              (digits_more (suc fuel) (n / 10 / 10) (omega arith)
                ∙ ap (λ (s : Text). s ++ (48 + n / 10 / 10 % 10) ∷ [])
                    (digits_last fuel (n / 10 / 10 / 10) (omega arith))))
    ∙ ap (λ k. (48 + k) ∷ (48 + n / 10 / 10 % 10) ∷ (48 + n / 10 % 10) ∷ (48 + n % 10) ∷ [])
        thousands
    ∙ ap (λ k. (48 + n / 1000) ∷ (48 + k % 10) ∷ (48 + n / 10 % 10) ∷ (48 + n % 10) ∷ []) hundreds

-- The digits of a number of four digits.
pub decimal-four :
    (n : ℕ)
    → 1000 ≤ n
    → n < 10_000
    → decimal n ≡ (48 + n / 1000) ∷ (48 + n / 100 % 10) ∷ (48 + n / 10 % 10) ∷ (48 + n % 10) ∷ []
unfolding decimal
decimal-four n low high =
    let enough : suc n ≡ suc (suc (suc (suc (n - 3)))) = omega arith in
    ap (λ fuel. digits fuel n) enough ∙ digits_four (n - 3) n low high

decimal_test : decimal 1024 ≡ codes "1024"
unfolding decimal
decimal_test = refl
