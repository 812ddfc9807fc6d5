-- ===== src/Witnesses/SubscriptionsPage.antt =====
-- The page of the subscriptions: a deletion that is blocked, and a summary.
use mihomo_cp.Prelude.{◌≡◌, refl, true, false, [], ◌∷◌, some}
use mihomo_cp.SubscriptionsPage.{PageState, done, refresh_all}
use mihomo_cp.Witnesses.SubscriptionForm.{stored}

abbrev chosen : PageState
chosen = record {
  subscriptions = stored ∷ [];
  providers = [];
  traffic_providers = [];
  loading = false;
  load_error = false;
  refreshing_all = false;
  draft_notice = false;
  deleting = some stored;
}

both_fail :
    refresh_all true (λ id. done true) (stored ∷ record stored { enabled = false } ∷ stored ∷ [])
    ≡ some (record { ok = 0; failed = 2 })
unfolding refresh_all
both_fail = refl
