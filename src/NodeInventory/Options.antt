-- ===== src/NodeInventory/Options.antt =====
-- The options of the filters, `protocolOptions` and `countryOptions`, and `providerSummaries`.
pub mod Sorting
pub mod Country
pub mod Protocols
use mihomo_cp.Prelude.{
  ℕ, ◌≡◌, ◌≢◌, refl, sym, ◌∙◌, ap, ◌↔◌, ◌⊎◌, inl, inr, Bool, true, false, not, List, [], ◌∷◌, map,
  Option, none, some, Bool-cases, In, All, keep, leb, ltb, ◌==◌, if◌then◌else◌, arith,
}
use mihomo_cp.Prelude.Unique.{Unique}
use mihomo_cp.Js.Text.{Text, codes, is_empty}
use mihomo_cp.Js.Value.{Number}
use mihomo_cp.Js.TextSet.{add, add_all, add_all-Unique, In-add_all, add-Unique, In-add}
use mihomo_cp.NodeInventory.{
  NodeRow, NodeKind, static, provider, is_static, ProviderStatus, ok, unknown, RuntimeProxyProvider,
}
use mihomo_cp.NodeInventory.Protocol.{base_protocols}
use mihomo_cp.Prelude.Kept.{In-keep}
use mihomo_cp.NodeInventory.Rows.{or_default}

-- `if (row.protocol) set.add(row.protocol)`.
unfoldable pub add_nonempty : List Text → Text → List Text
unfolding add
add_nonempty set p = if is_empty p then set else add set p

-- The same for each row.
unfoldable pub protocols_from : List Text → List NodeRow → List Text
unfolding add_nonempty
protocols_from set [] = set
protocols_from set (row ∷ rows) = protocols_from (add_nonempty set row.protocol) rows

abbrev pub base_set : List Text
base_set = map codes base_protocols

unfoldable pub protocol_options : List NodeRow → List Text
unfolding protocols_from add_all
protocol_options rows = protocols_from (add_all [] base_set) rows

-- The order of `Array.prototype.sort` on strings: by code units.
unfoldable pub text_le : Text → Text → Bool
text_le [] t = true
text_le (_ ∷ _) [] = false
text_le (a ∷ s) (b ∷ t) =
    let later = text_le s t in if ltb a b then true else if a == b then later else false

unfoldable pub insert : Text → List Text → List Text
unfolding text_le
insert x [] = x ∷ []
insert x (y ∷ ys) = let rest = insert x ys in if text_le x y then x ∷ y ∷ ys else y ∷ rest

unfoldable pub sort : List Text → List Text
unfolding insert
sort [] = []
sort (x ∷ xs) = insert x (sort xs)

unfoldable pub country_options : List NodeRow → List Text
unfolding add_all sort
country_options rows = sort (
    add_all []
      (keep (λ c. not (is_empty c)) (map (λ r. r.country) (keep (λ r. is_static r.kind) rows))))

pub record ProviderSummary : Type 0 where
  pub name : Text
  pub status : ProviderStatus
  pub node_count : Option Number
  pub updated_at : Text

-- `status === 'ok' && typeof node_count === 'number' ? node_count : null`.
abbrev pub known_count : ProviderStatus → Option Number → Option Number
known_count ok count = count
known_count unknown count = none

unfoldable pub provider_summaries : List RuntimeProxyProvider → List ProviderSummary
provider_summaries = map λ p. record {
  name = p.name;
  status = p.status;
  node_count = known_count p.status p.node_count;
  updated_at = or_default p.updated_at [];
}
