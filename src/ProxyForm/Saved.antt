-- ===== src/ProxyForm/Saved.antt =====
-- A proxy that is opened in the form, edited and saved.
use mihomo_cp.Prelude.{◌≡◌, refl, subst, Bool-cases, inl, inr, sym, ◌∙◌, ap, false, [], some}
use mihomo_cp.Js.Text.{Text, codes, text_eq}
use mihomo_cp.Js.Text.Laws.{text_eq_iff}
use mihomo_cp.Js.Value.{nullish, Value, str, Number, get}
use mihomo_cp.Js.Record.{put, get-put, get-put-other}
use mihomo_cp.ProxyForm.{
  Proxy, FormState, load, set_config_field, handle_submit, port_value, string_of,
}

module _ (to_text : Value → Text) (to_number : Text → Number) where
  saved_key :
      (form : FormState) (k : Text)
      → text_eq (codes "port") k ≡ false
      → text_eq (codes "server") k ≡ false
      → get k (handle_submit to_number form).config ≡ get k form.config
  unfolding handle_submit
  saved_key form k p s =
      get-put-other (codes "port") k (port_value to_number form.port)
        (put (codes "server") (str form.server) form.config) p
      ∙ get-put-other (codes "server") k (str form.server) form.config s

  saved_server :
      (form : FormState)
      → get (codes "server") (handle_submit to_number form).config ≡ str form.server
  unfolding handle_submit text_eq
  saved_server form =
      get-put-other (codes "port") (codes "server") (port_value to_number form.port)
        (put (codes "server") (str form.server) form.config) refl
      ∙ get-put (codes "server") (str form.server) form.config

  loaded_server :
      (proxy : Proxy) (host : Text)
      → get (codes "server") proxy.config ≡ str host
      → (load to_text (some proxy)).server ≡ host
  unfolding load
  loaded_server proxy host h = ap (λ (v : Value). string_of to_text (nullish v (str []))) h

  -- A proxy whose server is a text, opened in the form and saved after one field of its configuration other than
  -- `server` and `port` was set, has its name, its type and its server, the value of this field,
  -- and every other key but `port` as it was: keys that the form does not show are kept.
  pub load-set_config_field-handle_submit :
      (proxy : Proxy) (host key : Text) (value : Value)
      → get (codes "server") proxy.config ≡ str host
      → text_eq (codes "port") key ≡ false
      → text_eq (codes "server") key ≡ false
      → let saved =
          handle_submit to_number (set_config_field key value (load to_text (some proxy))) in
        (saved.name ≡ proxy.name)
        × (saved.type ≡ proxy.type)
        × (get (codes "server") saved.config ≡ str host)
        × (get key saved.config ≡ value)
        × ((k : Text)
            → text_eq (codes "port") k ≡ false
            → text_eq key k ≡ false
            → get k saved.config ≡ get k proxy.config)
  unfolding handle_submit load set_config_field
  load-set_config_field-handle_submit proxy host key value h p s =
      let form : FormState = set_config_field key value (load to_text (some proxy)) in
      let server : get (codes "server") (handle_submit to_number form).config ≡ str host =
        saved_server form ∙ ap str (loaded_server proxy host h) in
      (
        refl,
        refl,
        server,
        saved_key form key p s ∙ get-put key value proxy.config,
        λ k q other. elim (Bool-cases (text_eq (codes "server") k)) [
          | inl e ↦
              let same : codes "server" ≡ k = (text_eq_iff (codes "server") k).0 e in
              subst (λ (j : Text). get j (handle_submit to_number form).config ≡ get j proxy.config)
                same (server ∙ sym h)
          | inr e ↦ saved_key form k q e ∙ get-put-other key k value proxy.config other
        ],
      )
