-- ===== src/ProxyForm.antt =====
-- The form of a proxy, web/src/components/proxies/proxy-form.tsx. `Number` and `String` of the host
-- are parameters.
pub mod Keys
pub mod Saved
use mihomo_cp.Prelude.{
  Bool, true, false, ◌&&◌, List, [], ◌∷◌, map, Option, none, some, is_some, if◌then◌else◌,
}
use mihomo_cp.Js.Text.{Text, codes, text_eq, is_empty}
use mihomo_cp.Js.TextSet.{has}
use mihomo_cp.Js.Value.{
  Value, undefined, bool, num, str, Number, Object, empty, get, nullish, is_defined,
}
use mihomo_cp.Js.Record.{put}
use mihomo_cp.Session.{truthy}

pub data FieldType : Type 0 where
  text password number checkbox select : FieldType

pub record FieldDef : Type 0 where
  pub key : Text
  pub label : Text
  pub type : FieldType
  pub options : Option (List Text)

abbrev field_def : Text → Text → FieldType → Option (List Text) → FieldDef
field_def k l t o = record { key = k; label = l; type = t; options = o }

abbrev pub proxy_types : List Text
proxy_types =
    codes "ss"
    ∷ codes "trojan"
    ∷ codes "vmess"
    ∷ codes "vless"
    ∷ codes "http"
    ∷ codes "socks5"
    ∷ codes "hysteria2"
    ∷ codes "tuic"
    ∷ []

-- `PROTOCOL_FIELDS[type] ?? []`.
unfoldable pub protocol_fields : Text → List FieldDef
unfolding text_eq
protocol_fields type =
    if text_eq type (codes "ss")
    then field_def (codes "cipher") (codes "proxy.cipher") select
        (some (codes "aes-128-gcm" ∷ codes "aes-256-gcm" ∷ codes "chacha20-ietf-poly1305" ∷ []))
      ∷ field_def (codes "password") (codes "proxy.password") password none
      ∷ field_def (codes "udp") (codes "proxy.udp") checkbox none
      ∷ []
    else if text_eq type (codes "trojan")
    then field_def (codes "password") (codes "proxy.password") password none
      ∷ field_def (codes "sni") (codes "proxy.sni") text none
      ∷ field_def (codes "skip-cert-verify") (codes "proxy.skipCertVerify") checkbox none
      ∷ []
    else if text_eq type (codes "vmess")
    then field_def (codes "uuid") (codes "proxy.uuid") text none
      ∷ field_def (codes "alterId") (codes "proxy.alterId") number none
      ∷ field_def (codes "cipher") (codes "proxy.cipher") select (
          some (codes "auto" ∷ codes "aes-128-gcm" ∷ codes "chacha20-poly1305" ∷ codes "none" ∷ []))
      ∷ field_def (codes "tls") (codes "proxy.tls") checkbox none
      ∷ field_def (codes "servername") (codes "proxy.serverName") text none
      ∷ field_def (codes "network") (codes "proxy.network") select
          (some (codes "tcp" ∷ codes "ws" ∷ codes "h2" ∷ codes "grpc" ∷ []))
      ∷ []
    else if text_eq type (codes "vless")
    then field_def (codes "uuid") (codes "proxy.uuid") text none
      ∷ field_def (codes "flow") (codes "proxy.flow") select
          (some ([] ∷ codes "xtls-rprx-vision" ∷ []))
      ∷ field_def (codes "tls") (codes "proxy.tls") checkbox none
      ∷ field_def (codes "servername") (codes "proxy.serverName") text none
      ∷ field_def (codes "network") (codes "proxy.network") select
          (some (codes "tcp" ∷ codes "ws" ∷ codes "h2" ∷ codes "grpc" ∷ []))
      ∷ []
    else if text_eq type (codes "http")
    then field_def (codes "username") (codes "proxy.username") text none
      ∷ field_def (codes "password") (codes "proxy.password") password none
      ∷ field_def (codes "tls") (codes "proxy.tls") checkbox none
      ∷ []
    else if text_eq type (codes "socks5")
    then field_def (codes "username") (codes "proxy.username") text none
      ∷ field_def (codes "password") (codes "proxy.password") password none
      ∷ field_def (codes "tls") (codes "proxy.tls") checkbox none
      ∷ field_def (codes "udp") (codes "proxy.udp") checkbox none
      ∷ []
    else if text_eq type (codes "hysteria2")
    then field_def (codes "password") (codes "proxy.password") password none
      ∷ field_def (codes "obfs") (codes "proxy.obfs") select (some ([] ∷ codes "salamander" ∷ []))
      ∷ field_def (codes "obfs-password") (codes "proxy.obfsPassword") password none
      ∷ field_def (codes "sni") (codes "proxy.sni") text none
      ∷ field_def (codes "skip-cert-verify") (codes "proxy.skipCertVerify") checkbox none
      ∷ []
    else if text_eq type (codes "tuic")
    then field_def (codes "uuid") (codes "proxy.uuid") text none
      ∷ field_def (codes "password") (codes "proxy.password") password none
      ∷ field_def (codes "congestion-controller") (codes "proxy.congestionController") select
          (some (codes "cubic" ∷ codes "bbr" ∷ codes "new_reno" ∷ []))
      ∷ field_def (codes "sni") (codes "proxy.sni") text none
      ∷ field_def (codes "skip-cert-verify") (codes "proxy.skipCertVerify") checkbox none
      ∷ []
    else []

pub record Proxy : Type 0 where
  pub name : Text
  pub type : Text
  pub config : Object

pub record FormState : Type 0 where
  pub name : Text
  pub type : Text
  pub server : Text
  pub port : Text
  pub config : Object

abbrev pub default_state : FormState
default_state = record { name = []; type = codes "ss"; server = []; port = []; config = empty }

-- `String(v)`.
abbrev pub string_of : (Value → Text) → Value → Text
string_of to_text (str s) = s
string_of to_text v = to_text v

-- The effect on `[open, proxy]`, when the dialog opens.
unfoldable pub load : (Value → Text) → Option Proxy → FormState
load to_text none = default_state
load to_text (some p) = record {
  name = p.name;
  type = p.type;
  server = string_of to_text (nullish (get (codes "server") p.config) (str []));
  port = string_of to_text (nullish (get (codes "port") p.config) (str []));
  config = p.config;
}

-- The loop of `handleTypeChange` over the current fields, from the last one.
unfoldable pub preserved : Object → List Text → List FieldDef → Object → Object
unfolding has get put
preserved config new_keys [] kept = kept
preserved config new_keys (f ∷ fs) kept =
    let with = put f.key (get f.key config) kept in
    preserved config new_keys fs
      (if has new_keys f.key && is_defined (get f.key config) then with else kept)

unfoldable pub handle_type_change : Text → FormState → FormState
unfolding preserved protocol_fields
handle_type_change new_type form = record {
  name = form.name;
  type = new_type;
  server = form.server;
  port = form.port;
  config =
      preserved form.config (map (λ (f : FieldDef). f.key) (protocol_fields new_type))
        (protocol_fields form.type) empty;
}

unfoldable pub set_config_field : Text → Value → FormState → FormState
unfolding put
set_config_field key value form = record {
  name = form.name;
  type = form.type;
  server = form.server;
  port = form.port;
  config = put key value form.config;
}

-- `form.port ? Number(form.port) : undefined`.
abbrev pub port_value : (Text → Number) → Text → Value
port_value to_number port = if is_empty port then undefined else num (to_number port)

unfoldable pub handle_submit : (Text → Number) → FormState → Proxy
unfolding put
handle_submit to_number form = record {
  name = form.name;
  type = form.type;
  config =
      put (codes "port") (port_value to_number form.port)
        (put (codes "server") (str form.server) form.config);
}

-- What an input of `renderField` reports, and what it sets.
abbrev pub Entry : FieldType → Type 0
Entry checkbox = Bool
Entry select = Option Text
Entry _ = Text

unfoldable pub entered : (Text → Number) → (t : FieldType) → Entry t → Value
entered to_number checkbox b = bool b
entered to_number select none = str []
entered to_number select (some v) = str v
entered to_number number s = if is_empty s then str [] else num (to_number s)
entered to_number text s = str s
entered to_number password s = str s

-- `value !== undefined ? String(value) : ''`.
abbrev pub shown_text : (Value → Text) → Value → Text
shown_text to_text v = if is_defined v then string_of to_text v else []

-- `checked`, or the text that an input shows.
unfoldable pub shown : (Value → Text) → FieldType → Value → Value
shown to_text checkbox v = bool (is_some (truthy v))
shown to_text _ v = str (shown_text to_text v)
