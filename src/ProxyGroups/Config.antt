-- ===== src/ProxyGroups/Config.antt =====
-- What the form of a group saves.
use mihomo_cp.Prelude.{
  ◌≡◌, ◌≢◌, refl, sym, Bool, true, false, List, Option, some, Bool-cases, inl, inr, if◌then◌else◌,
}
use mihomo_cp.Js.Text.{Text, codes, text_eq}
use mihomo_cp.Js.Text.Laws.{text_eq_iff}
use mihomo_cp.Js.Value.{Value, undefined, str, Number, empty, field, get}
use mihomo_cp.ProxyGroups.{
  ProxyGroup, listed, FormState, load, is_checked, is_balanced, config_of, handle_submit,
}

other_key : (key k : Text) → k ≢ key → text_eq key k ≡ false
other_key key k n = elim (Bool-cases (text_eq key k)) [
  | inl e ↦ absurd (n (sym ((text_eq_iff key k).0 e)))
  | inr e ↦ e
]

module _ (to_number : Text → Number) where
  config_keys :
      (checked balanced : Bool) (url interval strategy : Value) (k : Text)
      → k ≢ codes "url"
      → k ≢ codes "interval"
      → k ≢ codes "strategy"
      → get k (
          if checked
          then field (codes "url") url (
              field
                (codes "interval")
                interval
                (if balanced then field (codes "strategy") strategy empty else empty))
          else if balanced
          then field (codes "strategy") strategy empty
          else empty)
        ≡ undefined
  unfolding get
  config_keys true true url interval strategy k u i s =
      rw (other_key _ k u, other_key _ k i, other_key _ k s) refl
  config_keys true false url interval strategy k u i s = rw (other_key _ k u, other_key _ k i) refl
  config_keys false true url interval strategy k u i s = rw (other_key _ k s) refl
  config_keys false false url interval strategy k u i s = refl

  -- A group that is opened in the form and saved without a change keeps its name, its type and its
  -- list of members, and loses every key of its configuration but `url`, `interval` and `strategy`.
  load-handle_submit :
      (parse_array : Text → Option (List Text)) (to_text : Value → Text) (group : ProxyGroup)
      (members : List Text) (k : Text)
      → group.members ≡ listed members
      → k ≢ codes "url"
      → k ≢ codes "interval"
      → k ≢ codes "strategy"
      → ((handle_submit to_number (load parse_array to_text (some group))).name ≡ group.name)
        × ((handle_submit to_number (load parse_array to_text (some group))).type ≡ group.type)
        × ((handle_submit to_number (load parse_array to_text (some group))).members ≡ members)
        × (get k (handle_submit to_number (load parse_array to_text (some group))).config
            ≡ undefined)
  unfolding handle_submit load config_of
  load-handle_submit parse_array to_text group members k e u i s = (
    refl,
    refl,
    rw e refl,
    config_keys (is_checked group.type) (is_balanced group.type) _ _ _ k u i s,
  )

  -- A group of type `url-test` or `fallback` is saved with the URL of the form, and one of type
  -- `load-balance` with its strategy; no other type has them.
  config_of_lem :
      (form : FormState)
      → (get (codes "url") (config_of to_number form)
          ≡ (if is_checked form.type then str form.url else undefined))
        × (get (codes "strategy") (config_of to_number form)
            ≡ (if is_balanced form.type then str form.strategy else undefined))
  unfolding config_of get text_eq
  config_of_lem form = elim (Bool-cases (is_checked form.type)) [
    | inl c ↦ elim (Bool-cases (is_balanced form.type)) [
      | inl b ↦ rw (c, b) (refl, refl)
      | inr b ↦ rw (c, b) (refl, refl)
    ]
    | inr c ↦ elim (Bool-cases (is_balanced form.type)) [
      | inl b ↦ rw (c, b) (refl, refl)
      | inr b ↦ rw (c, b) (refl, refl)
    ]
  ]
