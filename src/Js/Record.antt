-- ===== src/Js/Record.antt =====
-- Objects used as dictionaries: `o[key] = v`, `{ ...v }` and `v[key]`.
use mihomo_cp.Prelude.{
  ℕ, suc, true, false, ◌≡◌, refl, none, some, [], ◌∷◌, if◌then◌else◌, Bool-cases, inl, inr, ◌==◌,
}
use mihomo_cp.Js.Text.{Text, text_eq}
use mihomo_cp.Js.Text.Decimal.{decimal}
use mihomo_cp.Js.Text.Laws.{text_eq_iff, text_eq_refl}
use mihomo_cp.Js.Value.{
  Value, undefined, null, bool, num, str, arr, obj, Items, nil, cons, Object, empty, field, get,
  nan, infinity, plus, minus,
}
use mihomo_cp.Session.{truthy}

-- `o[key] = v`, and `{ ...o, [key]: v }`: a key that is there keeps its place.
unfoldable pub put : Text → Value → Object → Object
unfolding text_eq
put key v empty = field key v empty
put key v (field k w rest) =
    let after = put key v rest in if text_eq k key then field k v rest else field k w after

spread_items : ℕ → Items → Object
unfolding decimal
spread_items i nil = empty
spread_items i (cons v vs) = field (decimal i) v (spread_items (suc i) vs)

spread_units : ℕ → Text → Object
unfolding decimal
spread_units i [] = empty
spread_units i (c ∷ s) = field (decimal i) (str (c ∷ [])) (spread_units (suc i) s)

-- `{ ...v }`.
unfoldable pub spread : Value → Object
unfolding spread_items spread_units
spread (arr items) = spread_items 0 items
spread (str s) = spread_units 0 s
spread (obj o) = o
spread _ = empty

-- `v[key]` for a `v` that is not null, and a key that no prototype has.
unfoldable pub member : Text → Value → Value
unfolding get spread
member key v = get key (spread v)

-- `v ? { ...v } : {}`.
unfoldable pub spread_truthy : Value → Object
unfolding spread
spread_truthy v = elim (truthy v) [ none ↦ empty | some w ↦ spread w ]

pub spread_truthy_lem : (v : Value) → spread_truthy v ≡ spread v
unfolding spread_truthy spread spread_units
spread_truthy_lem undefined = refl
spread_truthy_lem null = refl
spread_truthy_lem (bool true) = refl
spread_truthy_lem (bool false) = refl
spread_truthy_lem (num nan) = refl
spread_truthy_lem (num (infinity s)) = refl
spread_truthy_lem (num (plus m k)) = elim (Bool-cases (m == 0)) [
  | inl e ↦ rw (spread_truthy, e) refl
  | inr e ↦ rw (spread_truthy, e) refl
]
spread_truthy_lem (num (minus m k)) = elim (Bool-cases (m == 0)) [
  | inl e ↦ rw (spread_truthy, e) refl
  | inr e ↦ rw (spread_truthy, e) refl
]
spread_truthy_lem (str []) = refl
spread_truthy_lem (str (c ∷ s)) = refl
spread_truthy_lem (arr items) = refl
spread_truthy_lem (obj o) = refl

pub get-put : (key : Text) (v : Value) (o : Object) → get key (put key v o) ≡ v
unfolding get put
get-put key v empty = rw (text_eq_refl key) refl
get-put key v (field k w rest) = elim (Bool-cases (text_eq k key)) [
  | inl e ↦ rw (e, e) refl
  | inr e ↦ rw (e, e) (get-put key v rest)
]

pub get-put-other :
    (key other : Text) (v : Value) (o : Object)
    → text_eq key other ≡ false
    → get other (put key v o) ≡ get other o
unfolding get put
get-put-other key other v empty n = rw n refl
get-put-other key other v (field k w rest) n = elim (Bool-cases (text_eq k key)) [
  | inl e ↦ rw e (
      let same : k ≡ key = (text_eq_iff k key).0 e in
      let miss : text_eq k other ≡ false = rw same n in rw miss refl)
  | inr e ↦ rw e (elim (Bool-cases (text_eq k other)) [
    | inl d ↦ rw d refl
    | inr d ↦ rw d (get-put-other key other v rest n)
  ])
]
