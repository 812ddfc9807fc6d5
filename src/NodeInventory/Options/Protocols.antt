-- ===== src/NodeInventory/Options/Protocols.antt =====
-- What `protocolOptions` offers.
use mihomo_cp.Prelude.{◌≡◌, ◌≢◌, sym, ◌↔◌, ◌⊎◌, inl, inr, List, [], ◌∷◌, In}
use mihomo_cp.Prelude.Unique.{Unique}
use mihomo_cp.Js.Text.{Text}
use mihomo_cp.Js.TextSet.{add_all-Unique, In-add_all, add-Unique, In-add}
use mihomo_cp.NodeInventory.{NodeRow}
use mihomo_cp.NodeInventory.Options.{add_nonempty, protocols_from, base_set, protocol_options}

add_nonempty-Unique : (set : List Text) (p : Text) → Unique set → Unique (add_nonempty set p)
unfolding add_nonempty
add_nonempty-Unique set [] u = u
add_nonempty-Unique set (c ∷ p) u = add-Unique set (c ∷ p) u

In-add_nonempty :
    (a : Text) (set : List Text) (p : Text)
    → In a (add_nonempty set p) ↔ (In a set ⊎ ((a ≢ []) × (p ≡ a)))
unfolding add_nonempty
In-add_nonempty a set [] = (λ m. inl m, λ m. elim m [ inl k ↦ k | inr e ↦ absurd (e.0 (sym e.1)) ])
In-add_nonempty a set (c ∷ p) = (
  λ m. elim ((In-add a set (c ∷ p)).0 m) [ inl k ↦ inl k | inr e ↦ inr (λ z. cc, sym e) ],
  λ m. (In-add a set (c ∷ p)).1 (elim m [ inl k ↦ inl k | inr e ↦ inr (sym e.1) ]),
)

abbrev pub HasProtocol : Text → List NodeRow → Type 0
HasProtocol a [] = ⊥
HasProtocol a (row ∷ rows) = (row.protocol ≡ a) ⊎ HasProtocol a rows

protocols_from-Unique :
    (set : List Text) (rows : List NodeRow) → Unique set → Unique (protocols_from set rows)
unfolding protocols_from
protocols_from-Unique set [] u = u
protocols_from-Unique set (row ∷ rows) u =
    protocols_from-Unique (add_nonempty set row.protocol) rows
      (add_nonempty-Unique set row.protocol u)

In-protocols_from :
    (a : Text) (set : List Text) (rows : List NodeRow)
    → In a (protocols_from set rows) ↔ (In a set ⊎ ((a ≢ []) × HasProtocol a rows))
unfolding protocols_from
In-protocols_from a set [] = (λ m. inl m, λ m. elim m [ inl k ↦ k | inr h ↦ absurd h.1 ])
In-protocols_from a set (row ∷ rows) = (
  λ m. elim ((In-protocols_from a (add_nonempty set row.protocol) rows).0 m) [
    | inl k ↦ elim ((In-add_nonempty a set row.protocol).0 k) [
      | inl old ↦ inl old
      | inr new ↦ inr (new.0, inl new.1)
    ]
    | inr h ↦ inr (h.0, inr h.1)
  ],
  λ m. (In-protocols_from a (add_nonempty set row.protocol) rows).1 (elim m [
    | inl k ↦ inl ((In-add_nonempty a set row.protocol).1 (inl k))
    | inr h ↦ elim (h.1) [
      | inl e ↦ inl ((In-add_nonempty a set row.protocol).1 (inr (h.0, e)))
      | inr later ↦ inr (h.0, later)
    ]
  ]),
)

-- The protocol options have no doubles, and are exactly the base list and the non-empty protocols
-- of the rows.
pub protocol_options_lem :
    (rows : List NodeRow)
    → Unique (protocol_options rows)
      × ((a : Text)
          → In a (protocol_options rows) ↔ (In a base_set ⊎ ((a ≢ []) × HasProtocol a rows)))
unfolding protocol_options
protocol_options_lem rows = (
  protocols_from-Unique _ rows (add_all-Unique [] base_set tt),
  λ a. (
    λ m. elim ((In-protocols_from a _ rows).0 m) [
      | inl k ↦ elim ((In-add_all a [] base_set).0 k) [ inl bad ↦ absurd bad | inr b ↦ inl b ]
      | inr h ↦ inr h
    ],
    λ m.
        (In-protocols_from a _ rows).1
          (elim m [ inl b ↦ inl ((In-add_all a [] base_set).1 (inr b)) | inr h ↦ inr h ]),
  ),
)
