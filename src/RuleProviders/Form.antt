-- ===== src/RuleProviders/Form.antt =====
-- What the form of a rule provider saves.
use mihomo_cp.Prelude.{◌≡◌, refl, ap, Bool, true, false, some, [], if◌then◌else◌}
use mihomo_cp.Js.Text.{Text, codes, text_eq}
use mihomo_cp.Js.Value.{Value, undefined, str, Number, get, field, empty}
use mihomo_cp.RuleProviders.{RuleProvider, load, handle_submit, is_http, string_or, interval_value}

config_keys :
    (b : Bool) (path url interval : Value) (k : Text)
    → text_eq (codes "path") k ≡ false
    → text_eq (codes "url") k ≡ false
    → text_eq (codes "interval") k ≡ false
    → get k (
        field
          (codes "path")
          path
          (if b then field (codes "url") url (field (codes "interval") interval empty) else empty))
      ≡ undefined
unfolding get
config_keys true path url interval k p u i = rw (p, u, i) refl
config_keys false path url interval k p u i = rw p refl

saved_url :
    (b : Bool) (path interval v w : Value)
    → v ≡ w
    → get (codes "url") (
        field
          (codes "path")
          path
          (if b then field (codes "url") v (field (codes "interval") interval empty) else empty))
      ≡ (if b then w else undefined)
unfolding get text_eq
saved_url true path interval v w e = e
saved_url false path interval v w e = refl

shown_text :
    (to_text : Value → Text) (v : Value) (s d : Text)
    → v ≡ str s
    → str (string_or to_text v d) ≡ str s
shown_text to_text v s d e = ap (λ (u : Value). str (string_or to_text u d)) e

module _ (to_text : Value → Text) (to_number : Text → Number) where
  -- A rule provider that is opened in the form and saved without a change keeps its name, its type, its behavior,
  -- a path that is a text and, where its type is `http`, a URL that is a text; it loses every key of its configuration other
  -- than `path`, `url` and `interval`, and these two also where its type is another.
  load-handle_submit_config :
      (p : RuleProvider) (path url : Text)
      → get (codes "path") p.config ≡ str path
      → get (codes "url") p.config ≡ str url
      → let saved = handle_submit to_number (load to_text (some p)) in
        (saved.name ≡ p.name)
        × (saved.type ≡ p.type)
        × (saved.behavior ≡ p.behavior)
        × (get (codes "path") saved.config ≡ str path)
        × (get (codes "url") saved.config ≡ (if is_http p.type then str url else undefined))
        × ((k : Text)
            → text_eq (codes "path") k ≡ false
            → text_eq (codes "url") k ≡ false
            → text_eq (codes "interval") k ≡ false
            → get k saved.config ≡ undefined)
  unfolding handle_submit load get text_eq
  load-handle_submit_config p path url hp hu =
      let form = load to_text (some p) in
      let interval = interval_value to_number form.interval in
      (
        refl,
        refl,
        refl,
        shown_text to_text (get (codes "path") p.config) path [] hp,
        saved_url (is_http p.type) (str form.path) interval (str form.url) (str url)
            (shown_text to_text (get (codes "url") p.config) url [] hu),
        λ k a b c. config_keys (is_http p.type) (str form.path) (str form.url) interval k a b c,
      )
