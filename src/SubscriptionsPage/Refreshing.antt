-- ===== src/SubscriptionsPage/Refreshing.antt =====
-- The summary of refreshing all subscriptions.
use mihomo_cp.Prelude.{
  suc, ◌+◌, ◌≤◌, ◌≡◌, refl, sym, ap, ◌∙◌, inl, inr, Bool, true, false, List, [], ◌∷◌, map, keep,
  length, some, some_inj, Bool-cases, arith,
}
use mihomo_cp.Js.Text.{Text}
use mihomo_cp.Subscription.Form.{Subscription}
use mihomo_cp.SubscriptionsPage.{
  Outcome, Summary, is_failure, refreshed_ids, refresh_all_summary, refresh_all,
}

length-keep : {A : Type 0} (p : A → Bool) (xs : List A) → length (keep p xs) ≤ length xs
length-keep p [] = omega arith
length-keep p (x ∷ xs) = elim (Bool-cases (p x)) [
  | inl holds ↦ rw (keep, holds) (omega (arith, length-keep p xs))
  | inr fails ↦ rw (keep, fails) (omega (arith, length-keep p xs))
]

length-map : {A B : Type 0} (f : A → B) (xs : List A) → length (map f xs) ≡ length xs
length-map f [] = refl
length-map f (x ∷ xs) = ap suc (length-map f xs)

-- When all are refreshed, the two numbers of the summary add up to the number of the subscriptions that
-- are enabled, whatever the answers are.
pub refresh_all_lem :
    (is_admin : Bool) (answer : Text → Outcome Bool) (subs : List Subscription) (summary : Summary)
    → refresh_all is_admin answer subs ≡ some summary
    → summary.ok + summary.failed ≡ length (keep (λ s. s.enabled) subs)
unfolding refresh_all refresh_all_summary refreshed_ids
refresh_all_lem false answer subs summary e = cc
refresh_all_lem true answer subs summary e =
    let enabled = keep (λ s. s.enabled) subs in
    let results = map answer (map (λ s. s.id) enabled) in
    let same = some_inj e in
    ap (λ (t : Summary). t.ok + t.failed) (sym same)
    ∙ omega (
      arith,
      length-keep is_failure results,
      length-map answer (map (λ s. s.id) enabled),
      length-map (λ s. s.id) enabled,
    )
