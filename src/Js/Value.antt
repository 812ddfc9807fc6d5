-- ===== src/Js/Value.antt =====
-- Values of type `unknown`, as JSON delivers them, and the numbers among them.
use mihomo_cp.Prelude.{
  ℕ, ◌*◌, ◌^◌, Bool, true, false, ◌&&◌, Option, none, some, leb, ◌==◌, if◌then◌else◌,
}
use mihomo_cp.Js.Text.{Text, text_eq}

-- A double: NaN, an infinity with its sign, or the dyadic fraction `± m / 2 ^ k`.
pub data Number : Type 0 where
  nan : Number
  infinity : Bool → Number
  plus : ℕ → ℕ → Number
  minus : ℕ → ℕ → Number

-- `Number.isFinite(x)`.
abbrev pub is_finite : Number → Bool
is_finite nan = false
is_finite (infinity _) = false
is_finite _ = true

-- `x >= n` for a natural number literal `n`.
abbrev pub at_least : Number → ℕ → Bool
at_least nan n = false
at_least (infinity positive) n = positive
at_least (plus m k) n = leb (n * 2 ^ k) m
at_least (minus m k) n = (m == 0) && (n == 0)

abbrev pub int : ℕ → Number
int n = plus n 0

mutual
  pub data Value : Type 0 where
    undefined null : Value
    bool : Bool → Value
    num : Number → Value
    str : Text → Value
    arr : Items → Value
    obj : Object → Value

  pub data Items : Type 0 where
    nil : Items
    cons : Value → Items → Items

  pub data Object : Type 0 where
    empty : Object
    field : Text → Value → Object → Object

-- `o.name`: `undefined` where the object has no such property of its own.
unfoldable pub get : Text → Object → Value
unfolding text_eq
get name empty = undefined
get name (field key v rest) = if text_eq key name then v else get name rest

-- `v ?? w` on values of type `unknown`.
abbrev pub nullish : Value → Value → Value
nullish undefined w = w
nullish null w = w
nullish v w = v

-- `v !== undefined`.
abbrev pub is_defined : Value → Bool
is_defined undefined = false
is_defined _ = true

-- A field of type `T | null` as a value.
abbrev pub of_nullable {ℓ} : {T : Type ℓ} → (T → Value) → Option T → Value
of_nullable wrap none = null
of_nullable wrap (some x) = wrap x
