-- ===== src/Rules/Save.antt =====
-- What becomes of a rule that is edited and saved.
use mihomo_cp.Prelude.{
  ◌≡◌, ◌≢◌, refl, sym, ap, ◌∙◌, ◌↔◌, inl, inr, true, List, [], ◌∷◌, none, some, is_some, Bool-cases,
  In, if◌then◌else◌,
}
use mihomo_cp.Js.Text.{Text, codes, text_eq}
use mihomo_cp.Js.Text.Laws.{text_eq_iff}
use mihomo_cp.Js.TextSet.{has}
use mihomo_cp.Js.Value.{get}
use mihomo_cp.Session.{truthy}
use mihomo_cp.Rules.{
  Rule, FormState, no_resolve_types, no_payload_types, load, handle_submit, decoded, update,
  handle_save,
}

In-update :
    (rule row : Rule) (rows : List Rule)
    → In row rows
    → (row.id ≡ rule.id → In rule (update rule rows))
      × (row.id ≢ rule.id → In row (update rule rows))
unfolding update
In-update rule row [] m = absurd m
In-update rule row (r ∷ rows) (inl e) = (
  λ same. inl (rw ((text_eq_iff r.id rule.id).1 (sym (ap (λ q. q.id) e) ∙ same)) refl),
  λ other. elim (Bool-cases (text_eq r.id rule.id)) [
    | inl h ↦ absurd (other (ap (λ q. q.id) e ∙ (text_eq_iff r.id rule.id).0 h))
    | inr h ↦ inl (rw h e)
  ],
)
In-update rule row (r ∷ rows) (inr k) =
    let (a, b) = In-update rule row rows k in (λ same. inr (a same), λ other. inr (b other))

-- A rule of the table that is opened in the form and saved without a change keeps its type and its
-- target; its number in the order becomes 0, wherever it was; and every other rule of the table is
-- still there as it was.
pub load-handle_save :
    (new_id : Text) (rule other : Rule) (rows : List Rule)
    → In rule rows
    → In other rows
    → other.id ≢ rule.id
    → (saved : Rule) × (In saved
        (handle_save new_id (some rule) (handle_submit (load (some rule) none)) rows))
      × (saved.id ≡ rule.id)
      × (saved.type ≡ rule.type)
      × (saved.target ≡ rule.target)
      × (saved.sort_order ≡ 0)
      × (In other (handle_save new_id (some rule) (handle_submit (load (some rule) none)) rows))
unfolding handle_save handle_submit load
load-handle_save new_id rule other rows m o n =
    let saved = decoded rule.id (handle_submit (load (some rule) none)) in
    (
      saved,
      (In-update saved rule rows m).0 refl,
      refl,
      refl,
      refl,
      refl,
      (In-update saved other rows o).1 n,
    )

-- The flag `no-resolve` of a saved rule is set exactly when it is set in the form and the type of the
-- rule has it; a payload is sent for every type but those without one.
handle_submit_iff :
    (form : FormState)
    → ((is_some (truthy (get (codes "no-resolve") (handle_submit form).params)) ≡ true)
        ↔ ((has no_resolve_types form.type ≡ true) × (form.no_resolve ≡ true)))
      × ((handle_submit form).payload
          ≡ (if has no_payload_types form.type then [] else form.payload))
unfolding handle_submit get text_eq
handle_submit_iff form = elim (Bool-cases (has no_resolve_types form.type)) [
  | inl a ↦ elim (Bool-cases form.no_resolve) [
    | inl b ↦ rw (a, b) ((λ _. (refl, refl), λ _. refl), refl)
    | inr b ↦ rw (a, b) ((λ e. cc, λ h. cc (h.1)), refl)
  ]
  | inr a ↦ rw a ((λ e. cc, λ h. cc (h.0)), refl)
]
