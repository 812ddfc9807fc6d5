-- ===== src/SystemConfig/Fields.antt =====
-- Editing one field of the page.
use mihomo_cp.Prelude.{◌≡◌, refl, Bool, true, false, ◌||◌, all, In}
use mihomo_cp.Prelude.Kept.{all-In}
use mihomo_cp.Js.Text.{Text, text_eq}
use mihomo_cp.Js.Text.Split.{split, split-cons}
use mihomo_cp.Js.Value.{Value, Number, Object}
use mihomo_cp.SystemConfig.{
  Field, Entry, fields, entered, PageState, edit, get_nested_value, set_nested_value, start_save,
}
use mihomo_cp.SystemConfig.Paths.{diverge, get_parts-set_parts, get_parts-set_parts-other}

-- Two fields with one path, or with paths that do not lead through each other.
apart : Field → Field → Bool
unfolding diverge split text_eq
apart f g = text_eq f.path g.path || diverge (split b'.' f.path) (split b'.' g.path)

fields-apart : all (λ (f : Field). all (apart f) fields) fields ≡ true
unfolding apart
fields-apart = refl

get_nested_value-set_nested_value :
    (o : Object) (path : Text) (v : Value) → get_nested_value (set_nested_value o path v) path ≡ v
unfolding get_nested_value set_nested_value
get_nested_value-set_nested_value o path v =
    let (k, rest) = split-cons b'.' path in
    let (ks, eq) = rest in rw eq (get_parts-set_parts k ks v o)

untouched :
    (f g : Field) (v : Value) (o : Object)
    → text_eq f.path g.path ≡ false
    → apart f g ≡ true
    → get_nested_value (set_nested_value o f.path v) g.path ≡ get_nested_value o g.path
unfolding get_nested_value set_nested_value apart
untouched f g v o other both =
    let d : diverge (split b'.' f.path) (split b'.' g.path) ≡ true = rw other at both in
    get_parts-set_parts-other (split b'.' f.path) (split b'.' g.path) v o d

module _ (to_number : Text → Number) where
  -- After a field of the page has been edited, the body that the page saves has the entered value at the
  -- path of this field, and at the path of every other field of the page the value that it had.
  pub start_save-edit :
      (f : Field) (x : Entry f.control) (p : PageState)
      → In f fields
      → (get_nested_value ((start_save (edit to_number f x p)).1) f.path
          ≡ entered to_number f.control x)
        × ((g : Field)
            → In g fields
            → text_eq f.path g.path ≡ false
            → get_nested_value ((start_save (edit to_number f x p)).1) g.path
              ≡ get_nested_value p.config g.path)
  unfolding start_save
  start_save-edit f x p m = (
    get_nested_value-set_nested_value p.config f.path _,
    λ g k other.
        let both : apart f g ≡ true =
          all-In (apart f) fields g
            (all-In (λ (h : Field). all (apart h) fields) fields f fields-apart m) k in
        untouched f g _ p.config other both,
  )
