-- ===== src/SystemConfig/Paths.antt =====
-- Reading back what was set at a path, and the paths that an assignment leaves alone.
use mihomo_cp.Prelude.{
  ◌≡◌, refl, subst, ◌∙◌, ap, Bool, true, false, List, [], ◌∷◌, if◌then◌else◌, Bool-cases, inl, inr,
}
use mihomo_cp.Js.Text.{Text, text_eq}
use mihomo_cp.Js.Text.Laws.{text_eq_iff}
use mihomo_cp.Js.Value.{Value, undefined, null, bool, num, str, arr, obj, Object, get}
use mihomo_cp.Js.Record.{member, spread, spread_truthy, spread_truthy_lem, get-put, get-put-other}
use mihomo_cp.SystemConfig.{get_parts, set_parts}

-- Neither of two paths leads through the other.
unfoldable pub diverge : List Text → List Text → Bool
unfolding text_eq
diverge (a ∷ p) (b ∷ q) = let rest = diverge p q in if text_eq a b then rest else true
diverge _ _ = false

get_parts-undefined : (ks : List Text) → get_parts ks undefined ≡ undefined
unfolding get_parts
get_parts-undefined [] = refl
get_parts-undefined (k ∷ ks) = refl

get_parts-null : (k : Text) (ks : List Text) → get_parts (k ∷ ks) null ≡ undefined
unfolding get_parts
get_parts-null k ks = refl

-- A value and the copy of its properties read the same.
get_parts-spread :
    (k : Text) (ks : List Text) (v : Value)
    → get_parts (k ∷ ks) (obj (spread v)) ≡ get_parts (k ∷ ks) v
unfolding get_parts member spread get
get_parts-spread k ks undefined = get_parts-undefined ks
get_parts-spread k ks null = get_parts-undefined ks
get_parts-spread k ks (bool b) = refl
get_parts-spread k ks (num n) = refl
get_parts-spread k ks (str s) = refl
get_parts-spread k ks (arr items) = refl
get_parts-spread k ks (obj o) = refl

-- What is set at a path is read there, whatever the object holds on the way.
pub get_parts-set_parts :
    (k : Text) (ks : List Text) (v : Value) (o : Object)
    → get_parts (k ∷ ks) (obj (set_parts (k ∷ ks) v o)) ≡ v
unfolding get_parts set_parts member spread
get_parts-set_parts k [] v o = get-put k v o
get_parts-set_parts k (n ∷ ks) v o =
    ap (get_parts (n ∷ ks)) (get-put k _ o) ∙ get_parts-set_parts n ks v _

-- One step of an assignment that shares its first key with the path that is read.
step_inside :
    (a n m : Text) (p q : List Text) (v : Value) (o : Object)
    → get_parts (m ∷ q) (obj (set_parts (n ∷ p) v (spread_truthy (get a o))))
      ≡ get_parts (m ∷ q) (obj (spread_truthy (get a o)))
    → get_parts (a ∷ m ∷ q) (obj (set_parts (a ∷ n ∷ p) v o)) ≡ get_parts (a ∷ m ∷ q) (obj o)
unfolding get_parts set_parts member spread
step_inside a n m p q v o inside =
    ap (get_parts (m ∷ q)) (get-put a _ o)
    ∙ inside
    ∙ ap (λ (u : Object). get_parts (m ∷ q) (obj u)) (spread_truthy_lem (get a o))
    ∙ get_parts-spread m q (get a o)

step_beside :
    (a b : Text) (p q : List Text) (v : Value) (o : Object)
    → text_eq a b ≡ false
    → get_parts (b ∷ q) (obj (set_parts (a ∷ p) v o)) ≡ get_parts (b ∷ q) (obj o)
unfolding get_parts set_parts member spread
step_beside a b [] q v o n = ap (get_parts q) (get-put-other a b v o n)
step_beside a b (k ∷ p) q v o n = ap (get_parts q) (get-put-other a b _ o n)

-- What is read at a path stays when another path is set, neither of which leads through the other.
pub get_parts-set_parts-other :
    (p q : List Text) (v : Value) (o : Object)
    → diverge p q ≡ true
    → get_parts q (obj (set_parts p v o)) ≡ get_parts q (obj o)
unfolding diverge
get_parts-set_parts-other [] q v o d = cc
get_parts-set_parts-other (a ∷ p) [] v o d = cc
get_parts-set_parts-other (a ∷ []) (b ∷ q) v o d = elim (Bool-cases (text_eq a b)) [
  | inl e ↦ let bad : false ≡ true = rw e at d in cc
  | inr n ↦ step_beside a b [] q v o n
]
get_parts-set_parts-other (a ∷ n ∷ p) (b ∷ []) v o d = elim (Bool-cases (text_eq a b)) [
  | inl e ↦ let bad : false ≡ true = rw e at d in cc
  | inr n' ↦ step_beside a b (n ∷ p) [] v o n'
]
get_parts-set_parts-other (a ∷ n ∷ p) (b ∷ m ∷ q) v o d = elim (Bool-cases (text_eq a b)) [
  | inl e ↦
      let same : a ≡ b = (text_eq_iff a b).0 e in
      let rest : diverge (n ∷ p) (m ∷ q) ≡ true = rw e at d in
      subst
        (λ (c : Text).
          get_parts (c ∷ m ∷ q) (obj (set_parts (a ∷ n ∷ p) v o)) ≡ get_parts (c ∷ m ∷ q) (obj o))
        same
        (step_inside a n m p q v o
          (get_parts-set_parts-other (n ∷ p) (m ∷ q) v (spread_truthy (get a o)) rest))
  | inr n' ↦ step_beside a b (n ∷ p) (m ∷ q) v o n'
]
