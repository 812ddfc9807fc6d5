-- ===== src/Subscription/Form/Provider.antt =====
-- The provider that the provider field of subscription-form.tsx names, and to which subscription it
-- is linked, said without the search of the code.
use mihomo_cp.Prelude.{
  ◌≡◌, ◌≢◌, refl, sym, subst, ◌∙◌, ap, ◌↔◌, ◌⊎◌, inl, inr, Bool, true, false, not, ◌&&◌, List, [],
  ◌∷◌, Option, none, some, some_inj, is_some, find, Bool-cases, Option-cases, All,
}
use mihomo_cp.Js.Text.{Text, text_eq, trim, is_empty}
use mihomo_cp.Js.Text.Laws.{text_eq_iff}
use mihomo_cp.Subscription.Form.{
  Subscription, DiscoveredProvider, FormProps, Form, found_provider, existing_provider, other_id,
  linked_elsewhere,
}

-- `p` is the first provider of the list with that name.
abbrev pub FirstNamed : Text → DiscoveredProvider → List DiscoveredProvider → Type 0
FirstNamed name p [] = ⊥
FirstNamed name p (q ∷ qs) = ((q.name ≡ name) × (q ≡ p)) ⊎ ((q.name ≢ name) × FirstNamed name p qs)

-- No provider of the list has that name.
abbrev pub Unnamed : Text → List DiscoveredProvider → Type 0
Unnamed name ps = All (λ p. p.name ≢ name) ps

ne_text : {s t : Text} → text_eq s t ≡ false → s ≢ t
ne_text {s} {t} e same = cc ((text_eq_iff s t).1 same, e)

ne_false : {s t : Text} → s ≢ t → text_eq s t ≡ false
ne_false {s} {t} n = elim (Bool-cases (text_eq s t)) [
  | inl e ↦ absurd (n ((text_eq_iff s t).0 e))
  | inr e ↦ e
]

pub found_iff :
    (name : Text) (p : DiscoveredProvider) (ps : List DiscoveredProvider)
    → (found_provider ps name ≡ some p) ↔ FirstNamed name p ps
found_iff name p [] = (λ e. cc, λ h. absurd h)
found_iff name p (q ∷ qs) = elim (Bool-cases (text_eq q.name name)) [
  | inl e ↦
      rw (find, e)
        (
          λ h. inl ((text_eq_iff q.name name).0 e, some_inj h),
          λ h. elim h [
            | inl k ↦ ap some k.1
            | inr k ↦ absurd (k.0 ((text_eq_iff q.name name).0 e))
          ],
        )
  | inr e ↦
      rw (find, e)
        (
          λ h. inr (ne_text e, (found_iff name p qs).0 h),
          λ h. elim h [ inl k ↦ absurd (ne_text e k.0) | inr k ↦ (found_iff name p qs).1 k.1 ],
        )
]

pub unfound_iff :
    (name : Text) (ps : List DiscoveredProvider) → (found_provider ps name ≡ none) ↔ Unnamed name ps
unfound_iff name [] = (λ _. tt, λ _. refl)
unfound_iff name (q ∷ qs) = elim (Bool-cases (text_eq q.name name)) [
  | inl e ↦ rw (find, e) (λ h. cc, λ h. absurd (h.0 ((text_eq_iff q.name name).0 e)))
  | inr e ↦
      rw (find, e) (λ h. (ne_text e, (unfound_iff name qs).0 h), λ h. (unfound_iff name qs).1 h.1)
]

pub is_found_iff :
    (name : Text) (ps : List DiscoveredProvider)
    → (is_some (found_provider ps name) ≡ true) ↔ ((p : DiscoveredProvider) × FirstNamed name p ps)
is_found_iff name ps = (
  λ e. elim (Option-cases (found_provider ps name)) [
    | inl h ↦ cc (rw h at e)
    | inr (p, h) ↦ (p, (found_iff name p ps).0 h)
  ],
  λ (p, h). ap is_some ((found_iff name p ps).1 h),
)

-- If the provider is linked to a subscription, then to the one that is edited.
abbrev pub LinkedHere : Option Subscription → DiscoveredProvider → Type 0
LinkedHere edited p =
    (id : Text)
    → p.linked_subscription_id ≡ some id
    → id ≢ []
    → (s : Subscription) × (edited ≡ some s) × (id ≡ s.id)

elsewhere : Option Subscription → Option Text → Bool
unfolding other_id
elsewhere edited link = elim link [
  | none ↦ false
  | some id ↦ not (is_empty id) && other_id edited id
]

elsewhere_iff :
    (edited : Option Subscription) (link : Option Text)
    → (elsewhere edited link ≡ false) ↔ (
        (id : Text)
        → link ≡ some id
        → id ≢ []
        → (s : Subscription) × (edited ≡ some s) × (id ≡ s.id))
unfolding elsewhere other_id
elsewhere_iff edited none = (λ e id h. cc, λ _. refl)
elsewhere_iff edited (some []) = (λ e id h full. absurd (full (sym (some_inj h))), λ _. refl)
elsewhere_iff none (some (c ∷ t)) = (λ e. cc, λ h. let (s, bad, _) = h (c ∷ t) refl (λ e. cc) in cc)
elsewhere_iff (some s) (some (c ∷ t)) = elim (Bool-cases (text_eq (c ∷ t) s.id)) [
  | inl same ↦
      rw same
        (λ _ id h full. (s, refl, sym (some_inj h) ∙ (text_eq_iff (c ∷ t) s.id).0 same), λ _. refl)
  | inr other ↦ rw other (
    λ e. cc,
    λ h.
        let (r, here, same) = h (c ∷ t) refl (λ e. cc) in
        absurd (ne_text other (same ∙ ap (λ (x : Subscription). x.id) (sym (some_inj here)))),
  )
]

pub linked_elsewhere_iff :
    (props : FormProps) (form : Form)
    → (linked_elsewhere props form ≡ false) ↔ (
        (p : DiscoveredProvider)
        → FirstNamed (trim form.provider_name) p props.providers
        → LinkedHere props.subscription p)
unfolding linked_elsewhere existing_provider elsewhere
linked_elsewhere_iff props form =
    let name = trim form.provider_name in
    elim (Option-cases (found_provider props.providers name)) [
      | inl h ↦
          rw (linked_elsewhere, existing_provider, h)
            (λ _ p first. cc (sym h ∙ (found_iff name p props.providers).1 first), λ _. refl)
      | inr (p, h) ↦
          rw (linked_elsewhere, existing_provider, h)
            (
              λ e q first.
                  let same : p ≡ q =
                    some_inj (sym h ∙ (found_iff name q props.providers).1 first) in
                  subst (LinkedHere props.subscription) same
                    ((elsewhere_iff props.subscription p.linked_subscription_id).0 e),
              λ k.
                  (elsewhere_iff props.subscription p.linked_subscription_id).1
                    (k p ((found_iff name p props.providers).0 h)),
            )
    ]
