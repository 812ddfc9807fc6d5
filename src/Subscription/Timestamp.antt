-- ===== src/Subscription/Timestamp.antt =====
-- `normalizeTimestamp` of web/src/api/subscriptions.ts. `utc_year` is the UTC year of `new Date(text)`,
-- `none` where the date is invalid.
use mihomo_cp.Prelude.{
  ◌≡◌, ◌≢◌, sym, ◌∙◌, ap, ◌↔◌, inl, inr, true, false, [], ◌∷◌, Option, none, some, Bool-cases,
  Option-cases, some_inj, if◌then◌else◌,
}
use mihomo_cp.Js.Text.{Text, is_empty}
use mihomo_cp.Js.Date.{ℤ, pos, leb_ℤ}

module _ (utc_year : Text → Option ℤ) where
  -- Go's zero time, an empty text and an invalid date are unknown.
  unfoldable pub normalize_timestamp : Option Text → Option Text
  normalize_timestamp none = none
  normalize_timestamp (some value) = if is_empty value then none else elim (utc_year value) [
    | none ↦ none
    | some year ↦ if leb_ℤ year (pos 1) then none else some value
  ]

  -- A timestamp is kept, as it was, exactly when it is not empty, is a valid date, and lies after
  -- the year 1.
  normalize_timestamp_iff :
      (o : Option Text) (v : Text)
      → (normalize_timestamp o ≡ some v) ↔ (
          (o ≡ some v)
          × (v ≢ [])
          × ((year : ℤ) × (utc_year v ≡ some year) × (leb_ℤ year (pos 1) ≡ false)))
  unfolding normalize_timestamp
  normalize_timestamp_iff none v = (λ e. cc, λ h. cc (h.0))
  normalize_timestamp_iff (some []) v = (λ e. cc, λ h. absurd (h.1 (sym (some_inj h.0))))
  normalize_timestamp_iff (some (c ∷ s)) v = elim (Option-cases (utc_year (c ∷ s))) [
    | inl bad ↦ rw bad (
      λ e. cc,
      λ h. let there : none ≡ some (h.2.0) = sym bad ∙ ap utc_year (some_inj h.0) ∙ h.2.1 in cc,
    )
    | inr (year, good) ↦ elim (Bool-cases (leb_ℤ year (pos 1))) [
      | inl early ↦
          rw (good, early)
            (
              λ e. cc,
              λ h.
                  let same : year ≡ h.2.0 =
                    some_inj (sym good ∙ ap utc_year (some_inj h.0) ∙ h.2.1) in
                  let bad : true ≡ false = sym early ∙ ap (λ y. leb_ℤ y (pos 1)) same ∙ h.2.2 in cc,
            )
      | inr late ↦
          rw (good, late)
            (λ e. (e, λ z. cc, (year, ap utc_year (sym (some_inj e)) ∙ good, late)), λ h. h.0)
    ]
  ]
