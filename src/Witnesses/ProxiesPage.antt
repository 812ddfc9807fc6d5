-- ===== src/Witnesses/ProxiesPage.antt =====
-- The page of the nodes after some answers.
use mihomo_cp.Prelude.{◌≡◌, refl, List, [], ◌∷◌, none, some}
use mihomo_cp.Js.Text.{codes}
use mihomo_cp.NodeInventory.{unknown}
use mihomo_cp.NodeInventory.Rows.{build_node_rows, provider_source}
use mihomo_cp.NodeInventory.Statics.{static_part}
use mihomo_cp.ProxiesPage.{
  PageState, first_state, all_rows, source_label, source_unknown, empty_message, provider_unknown,
}
use mihomo_cp.ProxiesPage.Fetches.{
  Event, proxies_come, providers_come, after, last_proxies, all_rows-after,
}
use mihomo_cp.Witnesses.Inputs.{ascii_lower, plain_text}
use mihomo_cp.Witnesses.NodeInventory.{tokyo, lone, tokyo_row, node_row}

-- The providers come first, then the proxies, then the proxies fail.
abbrev history : List Event
history =
    proxies_come none
    ∷ proxies_come (some (some (tokyo ∷ [])))
    ∷ providers_come (some (some (lone ∷ [])))
    ∷ []

both : all_rows ascii_lower plain_text (after history) ≡ some (tokyo_row ∷ node_row ∷ [])
unfolding all_rows after
both = refl

all_rows-after_example :
    build_node_rows ascii_lower plain_text (last_proxies history) []
    ≡ some (static_part (tokyo_row ∷ node_row ∷ []))
all_rows-after_example =
    all_rows-after ascii_lower plain_text history (tokyo_row ∷ node_row ∷ []) both

abbrev offline : PageState
offline = record first_state {
  providers = record lone { status = unknown } ∷ [];
  source_filter = provider_source (codes "P");
}

labels :
    (source_label offline ≡ source_unknown (codes "P")) × (empty_message offline ≡ provider_unknown)
unfolding source_label empty_message
labels = (refl, refl)
