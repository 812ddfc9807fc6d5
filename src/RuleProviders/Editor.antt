-- ===== src/RuleProviders/Editor.antt =====
-- `ContentEditor` over whatever happens to it: openings for one provider after another, answers that
-- come late and in any order, typing, saving and closing. An event that changes the text asks for what
-- the page offers at that moment.
use mihomo_cp.Prelude.{
  ◌≡◌, refl, sym, ap, ◌∙◌, ◌⊎◌, inl, inr, Bool, true, false, ◌||◌, List, [], ◌∷◌, Option, none,
  some, some_inj, if◌then◌else◌, Bool-cases, Option-cases,
}
use mihomo_cp.Js.Text.{Text, text_eq}
use mihomo_cp.Js.Text.Laws.{text_eq_iff}
use mihomo_cp.Api
use mihomo_cp.Api.{Endpoint}
use mihomo_cp.RuleProviders.{
  RuleProvider, EditorState, first_editor, Outcome, done, failed, or_empty, start_content,
  finish_content, type_content, start_save, finish_save,
}

-- The editor, the provider that it is open for, and the providers whose content is asked for and not
-- answered yet.
pub record Dialog : Type 0 where
  pub editor : EditorState
  pub provider : Option RuleProvider
  pub in_flight : List Text

abbrev pub first_dialog : Dialog
first_dialog = record { editor = first_editor; provider = none; in_flight = [] }

pub data Event : Type 0 where
  opens : RuleProvider → Event
  answered : Text → Outcome (Option Text) → Event
  types : Text → Event
  saves : Event
  saved : Outcome Unit → Event
  closes : Event

-- One of the requests for this provider is answered.
unfoldable pub without : Text → List Text → List Text
unfolding text_eq
without id [] = []
without id (k ∷ ks) = let rest = without id ks in if text_eq k id then ks else k ∷ rest

-- The save button is disabled while the editor loads or saves.
unfoldable pub press_save : Dialog → Dialog × Option (Endpoint × Text)
unfolding start_save
press_save s = if s.editor.loading || s.editor.saving then (s, none) else (
  record s { editor = (start_save s.provider s.editor).0 },
  (start_save s.provider s.editor).1,
)

-- The dialog after an event, and the request that is sent to save.
unfoldable pub step : Event → Dialog → Dialog × Option (Endpoint × Text)
unfolding finish_content finish_save press_save without
step (opens p) s = (
  record s { editor = start_content s.editor; provider = some p; in_flight = p.id ∷ s.in_flight },
  none,
)
step (answered id o) s =
    (record s { editor = (finish_content o s.editor).0; in_flight = without id s.in_flight }, none)
step (types text) s = (record s { editor = type_content text s.editor }, none)
step saves s = press_save s
step (saved (done u)) s =
    (record s { editor = (finish_save (done u) s.editor).0; provider = none }, none)
step (saved failed) s = (record s { editor = (finish_save failed s.editor).0 }, none)
step closes s = (record s { provider = none }, none)

-- The dialog after some events, the last of them in front.
unfoldable pub state_after : List Event → Dialog
unfolding step
state_after [] = first_dialog
state_after (e ∷ es) = (step e (state_after es)).0

-- Nothing is opened before the last request is answered, every request is answered with a content, and
-- a text is typed only where the page shows the text area.
abbrev pub InTurn : Event → Dialog → Type 0
InTurn (opens p) s = s.in_flight ≡ []
InTurn (answered id o) s = (s.in_flight ≡ id ∷ []) × ((c : Option Text) × (o ≡ done c))
InTurn (types text) s = s.editor.loading ≡ false
InTurn _ s = Unit

abbrev pub Orderly : List Event → Type 0
Orderly [] = Unit
Orderly (e ∷ es) = InTurn e (state_after es) × Orderly es

-- The last text that was answered or typed is this one, and it was answered for this provider, or typed
-- while the editor was open for it.
abbrev pub LastFor : List Event → Text → Text → Type 0
LastFor [] id text = ⊥
LastFor (answered k (done c) ∷ es) id text = (k ≡ id) × (or_empty c ≡ text)
LastFor (types t ∷ es) id text =
    (t ≡ text) × ((p : RuleProvider) × ((state_after es).provider ≡ some p) × (p.id ≡ id))
LastFor (_ ∷ es) id text = LastFor es id text

-- Between two requests the text belongs to the open provider; during one the editor loads, and the
-- request is for the open provider.
abbrev Sound : List Event → Dialog → Type 0
Sound es s =
    ((s.in_flight ≡ [])
      × ((p : RuleProvider) → s.provider ≡ some p → LastFor es p.id s.editor.content))
    ⊎ ((id : Text) × (s.in_flight ≡ id ∷ [])
        × (s.editor.loading ≡ true)
        × ((p : RuleProvider) → s.provider ≡ some p → p.id ≡ id))

without_self : (id : Text) → without id (id ∷ []) ≡ []
unfolding without
without_self id = rw ((text_eq_iff id id).1 refl) refl

head_text : {a b : Text} {s : List Text} → (a ∷ []) ≡ (b ∷ s) → a ≡ b
head_text e = cc

press_save-Sound : (es : List Event) (s : Dialog) → Sound es s → Sound es (press_save s).0
unfolding press_save start_save
press_save-Sound es s h = elim (Bool-cases (s.editor.loading || s.editor.saving)) [
  | inl busy ↦ rw busy h
  | inr free ↦
      rw free (elim (Option-cases s.provider) [
        | inl e ↦ rw e (rw e at h)
        | inr (p, e) ↦ rw e (rw e at h)
      ])
]

state_after-Sound : (es : List Event) → Orderly es → Sound es (state_after es)
unfolding state_after step
state_after-Sound [] ok = inl (refl, λ p e. cc)
state_after-Sound (opens p ∷ es) (idle, ok) = inr (
  p.id,
  ap (λ (ks : List Text). p.id ∷ ks) idle,
  refl,
  λ q e. ap (λ (x : RuleProvider). x.id) (sym (some_inj e)),
)
state_after-Sound (answered id (done c) ∷ es) ((asked, _), ok) = elim (state_after-Sound es ok) [
  | inl (idle, _) ↦ cc (sym idle ∙ asked)
  | inr (k, busy, _, own) ↦ inl (
    ap (without id) asked ∙ without_self id,
    λ p e. (head_text (sym asked ∙ busy) ∙ sym (own p e), refl),
  )
]
state_after-Sound (answered id failed ∷ es) ((asked, (c, bad)), ok) = cc
state_after-Sound (types text ∷ es) (shown, ok) = elim (state_after-Sound es ok) [
  | inl (idle, _) ↦ inl (idle, λ p e. (refl, (p, e, refl)))
  | inr (k, _, busy, _) ↦ cc (sym busy ∙ shown)
]
state_after-Sound (saves ∷ es) (_, ok) =
    press_save-Sound es (state_after es) (state_after-Sound es ok)
state_after-Sound (saved (done u) ∷ es) (_, ok) = elim (state_after-Sound es ok) [
  | inl (idle, _) ↦ inl (idle, λ p e. cc)
  | inr (k, asked, busy, _) ↦ inr (k, asked, busy, λ p e. cc)
]
state_after-Sound (saved failed ∷ es) (_, ok) = elim (state_after-Sound es ok) [
  | inl (idle, own) ↦ inl (idle, own)
  | inr (k, asked, busy, own) ↦ inr (k, asked, busy, own)
]
state_after-Sound (closes ∷ es) (_, ok) = elim (state_after-Sound es ok) [
  | inl (idle, _) ↦ inl (idle, λ p e. cc)
  | inr (k, asked, busy, _) ↦ inr (k, asked, busy, λ p e. cc)
]

idle_of : (a b : Bool) → (a || b) ≡ false → a ≡ false
idle_of true b h = cc
idle_of false b h = refl

press_save-sent :
    (s : Dialog) (target : Endpoint) (text : Text)
    → (press_save s).1 ≡ some (target, text)
    → (p : RuleProvider) × (s.provider ≡ some p)
      × (s.editor.loading ≡ false)
      × (target ≡ Api.rule_providers (Api.update_content p.id))
      × (text ≡ s.editor.content)
unfolding press_save start_save
press_save-sent s target text e = elim (Bool-cases (s.editor.loading || s.editor.saving)) [
  | inl busy ↦ cc (rw busy at e)
  | inr free ↦ elim (Option-cases s.provider) [
    | inl none_open ↦ cc (rw (free, none_open) at e)
    | inr (p, here) ↦
        let sent = some_inj (rw (free, here) at e) in
        (
          p,
          here,
          idle_of s.editor.loading s.editor.saving free,
          sym (ap (λ (x : Endpoint × Text). x.0) sent),
          sym (ap (λ (x : Endpoint × Text). x.1) sent),
        )
  ]
]

-- Where nothing is opened before the last request is answered, and every request is answered with a
-- content, a save sends the open provider the last text that was answered for it or typed while the
-- editor was open for it: never the content of another provider.
pub saves-LastFor :
    (es : List Event) (target : Endpoint) (text : Text)
    → Orderly es
    → (step saves (state_after es)).1 ≡ some (target, text)
    → (p : RuleProvider) × ((state_after es).provider ≡ some p)
      × (target ≡ Api.rule_providers (Api.update_content p.id))
      × LastFor es p.id text
unfolding step
saves-LastFor es target text ok e =
    let (p, shown, idle, where_to, what) = press_save-sent (state_after es) target text e in
    elim (state_after-Sound es ok) [
      | inl (_, own) ↦ (p, shown, where_to, rw what (own p shown))
      | inr (_, _, busy, _) ↦ cc (sym busy ∙ idle)
    ]
