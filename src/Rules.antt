-- ===== src/Rules.antt =====
-- Rules: `RuleForm` and `RuleList` of web/src/components/rules, the handlers of web/src/pages/rules.tsx,
-- and the table that they change, internal/store/rule_store.go behind internal/handler/rule.go.
-- `array_move` is `arrayMove` of @dnd-kit/sortable.
pub mod Order
pub mod Table
pub mod Save
use mihomo_cp.Prelude.{
  ℕ, zero, suc, ◌+◌, Bool, true, false, not, ◌&&◌, ◌||◌, List, [], ◌∷◌, ◌++◌, map, Option, none,
  some, ◌or_else◌, is_some, find, if◌then◌else◌, keep,
}
use mihomo_cp.Js.Text.{Text, codes, text_eq, is_empty}
use mihomo_cp.Js.TextSet.{has}
use mihomo_cp.Js.Value.{Value, undefined, bool, Object, empty, field, get}
use mihomo_cp.Js.Date.{ℤ}
use mihomo_cp.Js.Move.{find_index, to_index}
use mihomo_cp.Session.{truthy}

pub record Rule : Type 0 where
  pub id : Text
  pub type : Text
  pub payload : Text
  pub target : Text
  pub params : Object
  pub sort_order : ℕ

abbrev pub match_type : Text
match_type = codes "MATCH"

-- `NO_RESOLVE_TYPES`.
abbrev pub no_resolve_types : List Text
no_resolve_types = codes "IP-CIDR" ∷ codes "IP-CIDR6" ∷ codes "SRC-IP-CIDR" ∷ []

abbrev pub no_payload_types : List Text
no_payload_types = match_type ∷ []

pub record FormState : Type 0 where
  pub type : Text
  pub payload : Text
  pub target : Text
  pub no_resolve : Bool

abbrev pub default_state : FormState
default_state = record {
  type = codes "DOMAIN";
  payload = [];
  target = codes "DIRECT";
  no_resolve = false;
}

-- `initialValues`.
pub record InitialValues : Type 0 where
  pub type : Option Text
  pub payload : Option Text

abbrev pub or_default : Option Text → Text → Text
or_default none d = d
or_default (some s) d = s

-- The effect on `[open, rule, initialValues]`, when the dialog opens.
unfoldable pub load : Option Rule → Option InitialValues → FormState
unfolding get
load (some rule) initial = record {
  type = rule.type;
  payload = rule.payload;
  target = rule.target;
  no_resolve = is_some (truthy (get (codes "no-resolve") rule.params));
}
load none (some values) = record default_state {
  type = or_default values.type default_state.type;
  payload = or_default values.payload default_state.payload;
}
load none none = default_state

-- What `onSave` takes: no `sort_order` is among it.
pub record RuleData : Type 0 where
  pub type : Text
  pub payload : Text
  pub target : Text
  pub params : Object

unfoldable pub handle_submit : FormState → RuleData
unfolding has
handle_submit form = record {
  type = form.type;
  payload = if has no_payload_types form.type then [] else form.payload;
  target = form.target;
  params =
      if has no_resolve_types form.type && form.no_resolve
      then field (codes "no-resolve") (bool true) empty
      else empty;
}

-- The first rule with an id, and its position: `rules.indexOf(activeRule)` for the rule that was found.
abbrev pub has_id : Text → Rule → Bool
has_id id rule = text_eq rule.id id

unfoldable pub rule_index : List Rule → Text → ℤ
unfolding text_eq
rule_index rules id = to_index (find_index (has_id id) rules)

-- What `handleDragEnd` gives to `onReorder`, if it is called.
unfoldable pub handle_drag_end :
    (List Rule → ℤ → ℤ → List Rule) → List Rule → Text → Option Text → Option (List Rule)
unfolding rule_index
handle_drag_end array_move rules active none = none
handle_drag_end array_move rules active (some over) =
    if text_eq active over then none else elim (find (has_id active) rules) [
      | none ↦ none
      | some active_rule ↦ elim (find (has_id over) rules) [
        | none ↦ none
        | some over_rule ↦
            if text_eq over_rule.type match_type
            then none
            else some (array_move rules (rule_index rules active) (rule_index rules over))
      ]
    ]

-- `UPDATE rules SET sort_order = ? WHERE id = ?`.
abbrev pub set_order : Text → ℕ → Rule → Rule
set_order id order rule = if text_eq rule.id id then record rule { sort_order = order } else rule

-- The loop of `RuleStore.Reorder`, from a position on, over the rows of the table.
unfoldable pub reorder_from : ℕ → List Text → List Rule → List Rule
unfolding text_eq
reorder_from i [] rows = rows
reorder_from i (id ∷ ids) rows = reorder_from (suc i) ids (map (set_order id i) rows)

unfoldable pub reorder : List Text → List Rule → List Rule
unfolding reorder_from
reorder ids rows = reorder_from 0 ids rows

-- The request body decoded into a `model.Rule`: a field that is not there is 0.
abbrev pub decoded : Text → RuleData → Rule
decoded id d = record {
  id = id;
  type = d.type;
  payload = d.payload;
  target = d.target;
  params = d.params;
  sort_order = 0;
}

-- `RuleStore.Update`.
unfoldable pub update : Rule → List Rule → List Rule
unfolding text_eq
update rule rows = map (λ row. if text_eq row.id rule.id then rule else row) rows

-- `RuleStore.Create`, with the id that the handler makes.
unfoldable pub create : Rule → List Rule → List Rule
create rule rows = rows ++ rule ∷ []

-- `handleSave` of the page, as far as the table: the rule that is edited, if any, and what the form
-- gives. `new_id` is the id of the server.
unfoldable pub handle_save : Text → Option Rule → RuleData → List Rule → List Rule
unfolding update create
handle_save new_id (some editing) d rows = update (decoded editing.id d) rows
handle_save new_id none d rows = create (decoded new_id d) rows

-- `handleReorder`: the ids that are sent.
unfoldable pub handle_reorder : List Rule → List Rule → List Rule
unfolding reorder
handle_reorder shown rows = reorder (map (λ r. r.id) shown) rows
