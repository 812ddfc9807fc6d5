-- ===== src/NodeInventory/Protocol.antt =====
-- `normalizeProtocol` and `protocolLabel`: display types of mihomo and stored types, as one id.
-- `lower` is `String.prototype.toLowerCase`. The tables are read at their own keys: a name that
-- objects inherit (`constructor`) is outside of the model.
use Prim.Native.String.{String}
use mihomo_cp.Prelude.{
  ℕ, ◌≡◌, Bool, false, not, ◌||◌, List, [], ◌∷◌, Option, none, some, ◌==◌, if◌then◌else◌,
  Bool-cases, inl, inr, All, keep, arith,
}
use mihomo_cp.Js.Text.{Text, codes, text_eq, is_space, trim}

-- A table from string to string, `Record<string, string>`.
unfoldable pub lookup : List (String × String) → Text → Option Text
unfolding text_eq
lookup [] key = none
lookup ((k, v) ∷ rest) key = if text_eq (codes k) key then some (codes v) else lookup rest key

abbrev pub protocol_aliases : List (String × String)
protocol_aliases =
    ("shadowsocks", "ss")
    ∷ ("shadowsocksr", "ssr")
    ∷ ("ssr", "ssr")
    ∷ ("vmess", "vmess")
    ∷ ("vless", "vless")
    ∷ ("trojan", "trojan")
    ∷ ("hysteria", "hysteria")
    ∷ ("hysteria2", "hysteria2")
    ∷ ("tuic", "tuic")
    ∷ ("anytls", "anytls")
    ∷ ("http", "http")
    ∷ ("socks5", "socks5")
    ∷ ("snell", "snell")
    ∷ ("wireguard", "wireguard")
    ∷ ("ssh", "ssh")
    ∷ ("mieru", "mieru")
    ∷ []

abbrev pub base_protocols : List String
base_protocols =
    "ss" ∷ "ssr" ∷ "vmess" ∷ "vless" ∷ "trojan" ∷ "hysteria" ∷ "hysteria2" ∷ "tuic" ∷ "anytls"
    ∷ "http" ∷ "socks5" ∷ "snell" ∷ "wireguard" ∷ []

abbrev pub protocol_labels : List (String × String)
protocol_labels =
    ("ss", "SS")
    ∷ ("ssr", "SSR")
    ∷ ("vmess", "VMess")
    ∷ ("vless", "VLESS")
    ∷ ("trojan", "Trojan")
    ∷ ("hysteria", "Hysteria")
    ∷ ("hysteria2", "Hysteria2")
    ∷ ("tuic", "TUIC")
    ∷ ("anytls", "AnyTLS")
    ∷ ("http", "HTTP")
    ∷ ("socks5", "SOCKS5")
    ∷ ("snell", "Snell")
    ∷ ("wireguard", "WireGuard")
    ∷ ("ssh", "SSH")
    ∷ ("mieru", "Mieru")
    ∷ []

-- The class `[\s_-]`.
unfoldable pub is_separator : ℕ → Bool
unfolding is_space
is_separator c = is_space c || c == b'_' || c == b'-'

abbrev pub or_key : Option Text → Text → Text
or_key none key = key
or_key (some v) key = v

unfoldable pub protocol_label : Text → Text
unfolding lookup
protocol_label protocol = or_key (lookup protocol_labels protocol) protocol

-- No separator is left in a text.
abbrev pub IsCompact : Text → Type 0
IsCompact = All (λ c. is_separator c ≡ false)

keep-IsCompact : (s : Text) → IsCompact (keep (λ c. not (is_separator c)) s)
keep-IsCompact [] = tt
keep-IsCompact (c ∷ s) = elim (Bool-cases (is_separator c)) [
  | inl sep ↦ rw (sep, keep) (keep-IsCompact s)
  | inr plain ↦ rw (plain, keep) (plain, keep-IsCompact s)
]

-- Every value of a table is free of separators.
abbrev AllCompact : List (String × String) → Type 0
AllCompact [] = Unit
AllCompact ((k, v) ∷ rest) = IsCompact (codes v) × AllCompact rest

lookup-IsCompact :
    (table : List (String × String)) (key : Text)
    → AllCompact table
    → IsCompact key
    → IsCompact (or_key (lookup table key) key)
unfolding lookup
lookup-IsCompact [] key h k = k
lookup-IsCompact ((j, v) ∷ rest) key (p, h) k = elim (Bool-cases (text_eq (codes j) key)) [
  | inl same ↦ rw same p
  | inr other ↦ rw other (lookup-IsCompact rest key h k)
]

module _ (lower : Text → Text) where
  unfoldable pub normalize_protocol : Text → Text
  unfolding trim is_separator lookup
  normalize_protocol raw =
      let key = keep (λ c. not (is_separator c)) (lower (trim raw)) in
      or_key (lookup protocol_aliases key) key

  -- Whatever the raw type is, the normalized protocol holds no white space, `_` or `-`.
  normalize_protocol-IsCompact : (raw : Text) → IsCompact (normalize_protocol raw)
  unfolding normalize_protocol
  normalize_protocol-IsCompact raw =
      lookup-IsCompact protocol_aliases _ (unfold is_separator in ground arith)
        (keep-IsCompact (lower (trim raw)))
