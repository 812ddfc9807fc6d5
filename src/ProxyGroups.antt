-- ===== src/ProxyGroups.antt =====
-- Proxy groups: `GroupMemberList` of web/src/components/proxy-groups/group-member-list.tsx and
-- `GroupForm` of web/src/components/proxy-groups/group-form.tsx. `array_move` is `arrayMove` of
-- @dnd-kit/sortable; the host's `Number` and `String` are parameters.
pub mod Members
pub mod Config
use mihomo_cp.Prelude.{
  Bool, true, false, not, ◌&&◌, ◌||◌, List, [], ◌∷◌, ◌++◌, map, Option, none, some, keep,
  if◌then◌else◌,
}
use mihomo_cp.Js.Text.{Text, codes, text_eq, is_empty}
use mihomo_cp.Js.TextSet.{has}
use mihomo_cp.Js.Value.{Value, undefined, num, str, Object, empty, field, get, Number, int}
use mihomo_cp.Js.Date.{ℤ}
use mihomo_cp.Js.Move.{find_index, to_index}
use mihomo_cp.Session.{truthy}

-- `members.indexOf(name)`.
unfoldable pub index_of : List Text → Text → ℤ
unfolding text_eq
index_of members name = to_index (find_index (λ m. text_eq m name) members)

-- The value is `null` or the text of the select box.
unfoldable pub handle_add : List Text → Option Text → List Text
unfolding has
handle_add members none = members
handle_add members (some value) =
    if not (is_empty value) && not (has members value) then members ++ value ∷ [] else members

unfoldable pub handle_remove : List Text → Text → List Text
unfolding text_eq
handle_remove members name = keep (λ m. not (text_eq m name)) members

unfoldable pub unselected_items : List Text → List Text → List Text
unfolding has
unselected_items members available = keep (λ item. not (has members item)) available

-- The event of a drag: the item that was dragged and the one it was dropped on, if any.
unfoldable pub handle_drag_end :
    (List Text → ℤ → ℤ → List Text) → List Text → Text → Option Text → List Text
handle_drag_end array_move members active none = members
handle_drag_end array_move members active (some over) =
    if text_eq active over
    then members
    else array_move members (index_of members active) (index_of members over)

-- `members` as the API delivers it: missing, a list, or a JSON text.
pub data RawMembers : Type 0 where
  missing : RawMembers
  listed : List Text → RawMembers
  text : Text → RawMembers

pub record ProxyGroup : Type 0 where
  pub id : Text
  pub name : Text
  pub type : Text
  pub config : Object
  pub members : RawMembers

pub record FormState : Type 0 where
  pub name : Text
  pub type : Text
  pub members : List Text
  pub url : Text
  pub interval : Text
  pub strategy : Text

abbrev pub default_url : Text
default_url = codes "http://www.gstatic.com/generate_204"

abbrev pub default_state : FormState
default_state = record {
  name = [];
  type = codes "select";
  members = [];
  url = default_url;
  interval = codes "300";
  strategy = codes "consistent-hashing";
}

-- What `onSave` takes.
pub record GroupData : Type 0 where
  pub name : Text
  pub type : Text
  pub config : Object
  pub members : List Text

-- `JSON.parse` as far as it yields an array of texts.
module _ (parse_array : Text → Option (List Text)) where
  unfoldable pub parse_members : RawMembers → List Text
  parse_members missing = []
  parse_members (listed members) = members
  parse_members (text []) = []
  parse_members (text (c ∷ s)) = elim (parse_array (c ∷ s)) [ none ↦ [] | some members ↦ members ]

-- `v ? String(v) : d`.
abbrev pub text_or : (Value → Text) → Value → Text → Text
text_or to_text v d = elim (truthy v) [ none ↦ d | some w ↦ to_text w ]

module _ (parse_array : Text → Option (List Text)) (to_text : Value → Text) where
  -- The effect on `[open, group]`, when the dialog opens.
  unfoldable pub load : Option ProxyGroup → FormState
  unfolding parse_members get
  load none = default_state
  load (some group) = record {
    name = group.name;
    type = group.type;
    members = parse_members parse_array group.members;
    url = text_or to_text (get (codes "url") group.config) default_url;
    interval = text_or to_text (get (codes "interval") group.config) (codes "300");
    strategy = text_or to_text (get (codes "strategy") group.config) (codes "consistent-hashing");
  }

-- The two tests of `handleSubmit` on the type.
unfoldable pub is_checked : Text → Bool
unfolding text_eq
is_checked type = text_eq type (codes "url-test") || text_eq type (codes "fallback")

unfoldable pub is_balanced : Text → Bool
unfolding text_eq
is_balanced type = text_eq type (codes "load-balance")

module _ (to_number : Text → Number) where
  abbrev pub check_interval : Text → Value
  check_interval interval = num (if is_empty interval then int 300 else to_number interval)

  unfoldable pub config_of : FormState → Object
  unfolding is_checked is_balanced
  config_of form =
      let balanced =
        if is_balanced form.type
        then field (codes "strategy") (str form.strategy) empty
        else empty in
      if is_checked form.type
      then field (codes "url") (str form.url)
          (field (codes "interval") (check_interval form.interval) balanced)
      else balanced

  unfoldable pub handle_submit : FormState → GroupData
  unfolding config_of
  handle_submit form = record {
    name = form.name;
    type = form.type;
    config = config_of form;
    members = form.members;
  }

-- The items that the page offers as members: all proxies and the other groups.
unfoldable pub available_members : List Text → List ProxyGroup → Option Text → List Text
unfolding text_eq
available_members proxy_names groups editing_id =
    proxy_names
    ++ map (λ g. g.name)
        (keep (λ g. elim editing_id [ none ↦ true | some id ↦ not (text_eq g.id id) ]) groups)
