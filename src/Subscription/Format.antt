-- ===== src/Subscription/Format.antt =====
-- Offsets, masked URLs, countdowns and staleness of web/src/lib/subscription-format.ts. `time_of` is
-- `new Date(text).getTime()` (`none` for NaN), `parse_url` is `new URL(text)` (`none` where it throws).
use mihomo_cp.Prelude.{
  ◌≡◌, ◌≢◌, refl, ℕ, ◌+◌, ◌*◌, ◌/◌, ◌<◌, ◌≤◌, Bool, true, false, ◌||◌, [], ◌∷◌, ◌++◌, Option, none,
  some, ◌>>=◌, ◌==◌, subst, some_inj, if◌then◌else◌, arith,
}
use mihomo_cp.Js.Text.{Text, codes, text_eq, is_empty}
use mihomo_cp.Js.Date.{ℤ, pos, negsuc, ◌-ℤ◌, sub_ℕ, ltb_ℤ}
use mihomo_cp.Subscription.WallTime.{digits, two}
use mihomo_cp.Subscription.WallTime.Laws.{digits-two}

abbrev pub is_zulu : Text → Bool
is_zulu offset = text_eq offset (codes "Z") || text_eq offset (codes "z")

-- `:?`.
abbrev pub skip_colon : Text → Text
skip_colon [] = []
skip_colon (c ∷ s) = if c == 58 then s else c ∷ s

-- `(\d{2}):?(\d{2})$`, in minutes.
unfoldable pub offset_minutes : Text → Option ℕ
unfolding digits
offset_minutes s = do
  hours ← digits 2 0 s
  minutes ← digits 2 0 (skip_colon hours.1)
  if is_empty minutes.1 then some (hours.0 * 60 + minutes.0) else none

-- `(+1 or -1) * minutes * 60000`.
abbrev pub signed_ms : Bool → ℕ → ℤ
signed_ms positive minutes =
    if positive then sub_ℕ (minutes * 60_000) 0 else sub_ℕ 0 (minutes * 60_000)

-- `/^([+-])(\d{2}):?(\d{2})$/.exec(offset)`.
unfoldable pub signed_offset : Text → Option ℤ
unfolding offset_minutes
signed_offset [] = none
signed_offset (sign ∷ s) =
    if sign == 43 || sign == 45
    then offset_minutes s >>= (λ m. some (signed_ms (sign == 43) m))
    else none

unfoldable pub parse_offset_ms : Text → Option ℤ
unfolding text_eq signed_offset
parse_offset_ms offset = if is_zulu offset then some (pos 0) else signed_offset offset

unfoldable pub offset_label : Text → Text
unfolding text_eq
offset_label offset = if is_zulu offset then codes "UTC" else codes "UTC" ++ offset

-- The parts of a URL: those that are shown, and all that follows the host.
pub record ParsedUrl : Type 0 where
  pub protocol : Text
  pub host : Text
  pub rest : Text

abbrev pub dots : Text
dots = codes "••••"

module _ (parse_url : Text → Option ParsedUrl) where
  unfoldable pub mask_url : Option Text → Option Text
  mask_url none = none
  mask_url (some url) =
      if is_empty url
      then none
      else some (elim (parse_url url) [
        | none ↦ dots
        | some p ↦ p.protocol ++ codes "//" ++ p.host ++ codes "/" ++ dots
      ])

  unfoldable pub display_masked_url : Option Text → Option Text → Option Text
  unfolding mask_url
  display_masked_url none full = mask_url full
  display_masked_url (some masked) full = if is_empty masked then mask_url full else some masked

-- Whole days, rounded up, of a span in milliseconds; 0 for a span that is over.
unfoldable pub days_of : ℤ → ℕ
days_of (pos ms) = (ms + 86_399_999) / 86_400_000
days_of (negsuc ms) = 0

module _ (time_of : Text → Option ℤ) where
  unfoldable pub days_until : Option Text → ℤ → Option ℕ
  unfolding days_of ◌-ℤ◌
  days_until none now = none
  days_until (some iso) now =
      if is_empty iso
      then none
      else elim (time_of iso) [ none ↦ none | some target ↦ some (days_of (target -ℤ now)) ]

  unfoldable pub is_stale : Option Text → ℕ → ℤ → Bool
  unfolding ◌-ℤ◌
  is_stale none minutes now = false
  is_stale (some text) minutes now = if is_empty text then false else elim (time_of text) [
    | none ↦ false
    | some last ↦ ltb_ℤ (pos (minutes * 60_000)) (now -ℤ last)
  ]

no_colon : (m : ℕ) → m < 100 → ((48 + m / 10) == 58) ≡ false
no_colon m h = let tens : m / 10 < 10 = omega arith in ground arith

offset_minutes_lem :
    (h m : ℕ)
    → h < 100
    → m < 100
    → (offset_minutes (two h (58 ∷ two m [])) ≡ some (h * 60 + m))
      × (offset_minutes (two h (two m [])) ≡ some (h * 60 + m))
unfolding offset_minutes
offset_minutes_lem h m hh hm = (
  rw (digits-two h (58 ∷ two m []) hh, digits-two m [] hm) refl,
  rw (digits-two h (two m []) hh, no_colon m hm, digits-two m [] hm) refl,
)

-- An offset with a sign, two digits of hours and two of minutes is read as its milliseconds, with or
-- without the colon.
parse_offset_ms_lem :
    (positive : Bool) (h m : ℕ)
    → h < 100
    → m < 100
    → (parse_offset_ms ((if positive then 43 else 45) ∷ two h (58 ∷ two m []))
        ≡ some (signed_ms positive (h * 60 + m)))
      × (parse_offset_ms ((if positive then 43 else 45) ∷ two h (two m []))
          ≡ some (signed_ms positive (h * 60 + m)))
unfolding parse_offset_ms
parse_offset_ms_lem true h m hh hm =
    let (colon, plain) = offset_minutes_lem h m hh hm in (rw colon refl, rw plain refl)
parse_offset_ms_lem false h m hh hm =
    let (colon, plain) = offset_minutes_lem h m hh hm in (rw colon refl, rw plain refl)

-- `d` is the least number of whole days that reaches the span, or 0 for a span that is over.
abbrev pub Reaches : ℕ → ℤ → Type 0
Reaches d (pos ms) = (ms ≤ d * 86_400_000) × (d * 86_400_000 < ms + 86_400_000)
Reaches d (negsuc ms) = d ≡ 0

days_of-Reaches : (span : ℤ) → Reaches (days_of span) span
unfolding days_of
days_of-Reaches (pos ms) = (omega arith, omega arith)
days_of-Reaches (negsuc ms) = refl

-- The countdown to a moment that lies ahead is the least number of whole days that reaches it, and it
-- is 0 for a moment that is past.
pub days_until-Reaches :
    (time_of : Text → Option ℤ) (iso : Text) (target now : ℤ) (d : ℕ)
    → time_of iso ≡ some target
    → days_until time_of (some iso) now ≡ some d
    → Reaches d (target -ℤ now)
unfolding days_until
days_until-Reaches time_of [] target now d t e = cc
days_until-Reaches time_of (c ∷ s) target now d t e =
    subst (λ n. Reaches n (target -ℤ now)) (some_inj (rw t at e)) (days_of-Reaches (target -ℤ now))

-- What is shown of a URL that the server does not mask depends on its protocol and its host only: two
-- URLs that differ in what follows the host, such as a token, look the same.
pub display_masked_url_lem :
    (parse_url : Text → Option ParsedUrl) (a b : Text) (p q : ParsedUrl)
    → parse_url a ≡ some p
    → parse_url b ≡ some q
    → p.protocol ≡ q.protocol
    → p.host ≡ q.host
    → a ≢ []
    → b ≢ []
    → display_masked_url parse_url none (some a) ≡ display_masked_url parse_url none (some b)
unfolding display_masked_url
display_masked_url_lem parse_url [] b p q pa qb protocol host fa fb = absurd (fa refl)
display_masked_url_lem parse_url (_ ∷ _) [] p q pa qb protocol host fa fb = absurd (fb refl)
display_masked_url_lem parse_url (_ ∷ _) (_ ∷ _) p q pa qb protocol host fa fb =
    rw (pa, qb, protocol, host) refl
