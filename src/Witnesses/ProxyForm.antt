-- ===== src/Witnesses/ProxyForm.antt =====
-- The form of a proxy at a concrete one.
use mihomo_cp.Prelude.{◌≡◌, refl, false, some}
use mihomo_cp.Js.Text.{Text, codes, text_eq}
use mihomo_cp.Js.TextSet.{has}
use mihomo_cp.Js.Value.{str, num, int, undefined, empty, field, get}
use mihomo_cp.ProxyForm.{
  Proxy, FormState, load, set_config_field, handle_submit, handle_type_change, protocol_fields,
}
use mihomo_cp.ProxyForm.Keys.{handle_type_change_lem}
use mihomo_cp.ProxyForm.Saved.{load-set_config_field-handle_submit}
use mihomo_cp.Witnesses.Inputs.{digit, plain_text}

abbrev proxy : Proxy
proxy = record {
  name = codes "A";
  type = codes "trojan";
  config = field (codes "server") (str (codes "h")) (
      field (codes "port") (num (int 4)) (
        field (codes "password") (str (codes "p"))
          (field (codes "network") (str (codes "ws")) empty)));
}

load-set_config_field-handle_submit_example :
    let saved =
      handle_submit digit
        (set_config_field (codes "sni") (str (codes "x")) (load plain_text (some proxy))) in
    (saved.name ≡ codes "A")
    × (saved.type ≡ codes "trojan")
    × (get (codes "server") saved.config ≡ str (codes "h"))
    × (get (codes "sni") saved.config ≡ str (codes "x"))
    × ((k : Text)
        → text_eq (codes "port") k ≡ false
        → text_eq (codes "sni") k ≡ false
        → get k saved.config ≡ get k proxy.config)
unfolding text_eq get
load-set_config_field-handle_submit_example =
    load-set_config_field-handle_submit plain_text digit proxy (codes "h") (codes "sni")
      (str (codes "x")) refl refl refl

abbrev form : FormState
form = record {
  name = codes "A";
  type = codes "trojan";
  server = codes "h";
  port = codes "4";
  config = proxy.config;
}

handle_type_change_lem_example :
    ((handle_type_change (codes "ss") form).name ≡ codes "A")
    × ((handle_type_change (codes "ss") form).server ≡ codes "h")
    × ((handle_type_change (codes "ss") form).port ≡ codes "4")
    × (get (codes "password") (handle_type_change (codes "ss") form).config ≡ str (codes "p"))
unfolding protocol_fields get text_eq has
handle_type_change_lem_example = handle_type_change_lem (codes "ss") form (codes "password")

-- A key without a field is lost with the type.
network_lost : get (codes "network") (handle_type_change (codes "ss") form).config ≡ undefined
unfolding handle_type_change get
network_lost = refl
