-- ===== src/SubscriptionsPage.antt =====
-- The page of the subscriptions, web/src/pages/subscriptions.tsx: its fetch, deleting, and refreshing.
-- A request gives its data, or throws the error that `readApiError` reads.
pub mod Deleting
pub mod Refreshing
use mihomo_cp.Prelude.{
  ℕ, suc, ◌-◌, Bool, true, false, not, ◌||◌, List, [], ◌∷◌, map, keep, length, Option, none, some,
  is_some, ◌==◌, if◌then◌else◌,
}
use mihomo_cp.Js.Text.{Text, text_eq}
use mihomo_cp.Subscription.Form.{Subscription, DiscoveredProvider, TrafficProvider}
use mihomo_cp.ApiError.{ApiErrorInfo, Response, read_api_error}

pub record PageState : Type 0 where
  pub subscriptions : List Subscription
  pub providers : List DiscoveredProvider
  pub traffic_providers : List TrafficProvider
  pub loading : Bool
  pub load_error : Bool
  pub refreshing_all : Bool
  pub draft_notice : Bool
  pub deleting : Option Subscription

-- What a request comes to; an exception that is no HTTP error has no response.
pub data Outcome {ℓ} (A : Type ℓ) : Type ℓ where
  done : A → Outcome A
  thrown : Option Response → Outcome A

-- `res.data ?? []`.
abbrev pub listed : {A : Type 0} → Option (List A) → List A
listed none = []
listed (some xs) = xs

-- `request.catch(() => ({ data: [] }))`, then `data ?? []`.
abbrev pub listed_or_empty : {A : Type 0} → Outcome (Option (List A)) → List A
listed_or_empty (done found) = listed found
listed_or_empty (thrown _) = []

unfoldable pub fetch_all :
    Outcome (Option (List Subscription))
    → Outcome (Option (List DiscoveredProvider))
    → Outcome (Option (List TrafficProvider))
    → PageState
    → PageState
fetch_all (done subs) provs tps s = record s {
  subscriptions = listed subs;
  providers = listed_or_empty provs;
  traffic_providers = listed_or_empty tps;
  load_error = false;
  loading = false;
}
fetch_all (thrown _) provs tps s = record s { load_error = true; loading = false }

pub data Toast : Type 0 where
  deleted : Toast
  delete_blocked : List Text → Toast
  delete_referenced_generic : Toast
  delete_failed : Toast
  server_message : Text → Toast

-- `message || t(...)`.
abbrev pub message_or : Toast → Text → Toast
message_or toast [] = toast
message_or toast (c ∷ s) = server_message (c ∷ s)

abbrev pub is_conflict : Option ℕ → Bool
is_conflict none = false
is_conflict (some status) = status == 409

-- The toast for the error of a deletion.
unfoldable pub delete_error : ApiErrorInfo → Toast
delete_error info = elim info.references [
  | some (group ∷ groups) ↦ delete_blocked (group ∷ groups)
  | _ ↦
      if is_conflict info.status
      then message_or delete_referenced_generic info.message
      else message_or delete_failed info.message
]

-- `confirmDelete`, with the answer as far as `draft_changed === true`; the list is fetched anew when
-- the deletion was accepted.
unfoldable pub confirm_delete : Outcome Bool → PageState → PageState × Option Toast
unfolding delete_error read_api_error
confirm_delete outcome s = elim s.deleting [
  | none ↦ (s, none)
  | some _ ↦ elim outcome [
    | done draft_changed ↦ (
      record s { deleting = none; draft_notice = if draft_changed then true else s.draft_notice },
      some deleted,
    )
    | thrown response ↦ (s, some (delete_error (read_api_error response)))
  ]
]

-- The ids that `refreshAll` refreshes.
unfoldable pub refreshed_ids : List Subscription → List Text
refreshed_ids subs = map (λ s. s.id) (keep (λ s. s.enabled) subs)

-- A refresh that was rejected, or whose result has an error; the data is whether it has one.
abbrev pub is_failure : Outcome Bool → Bool
is_failure (done has_error) = has_error
is_failure (thrown _) = true

pub record Summary : Type 0 where
  pub ok : ℕ
  pub failed : ℕ

-- The summary of `refreshAll`; the subtraction stays above 0.
unfoldable pub refresh_all_summary : List (Outcome Bool) → Summary
refresh_all_summary results =
    let failed = length (keep is_failure results) in
    record { ok = length results - failed; failed = failed }

-- `refreshAll` over the answer of each refresh; `none` for a user who is no administrator.
unfoldable pub refresh_all : Bool → (Text → Outcome Bool) → List Subscription → Option Summary
unfolding refresh_all_summary refreshed_ids
refresh_all is_admin answer subs =
    if is_admin then some (refresh_all_summary (map answer (refreshed_ids subs))) else none
