-- ===== src/SystemConfig.antt =====
-- The page of the system configuration, web/src/pages/system-config.tsx. `Number` and `String` of
-- the host are parameters.
pub mod Paths
pub mod Fields
pub mod Lists
use mihomo_cp.Prelude.{
  Bool, true, false, not, List, [], ◌∷◌, ◌++◌, map, keep, Option, none, some, is_some,
  if◌then◌else◌,
}
use mihomo_cp.Js.Text.{Text, codes, trim, is_empty}
use mihomo_cp.Js.Text.Split.{split, join}
use mihomo_cp.Js.Value.{
  Value, undefined, null, bool, num, str, arr, obj, Number, Items, nil, cons, Object, empty, get,
  nullish,
}
use mihomo_cp.Js.Record.{put, member, spread_truthy}
use mihomo_cp.Session.{truthy}

-- The loop of `getNestedValue` from the value `cur`.
unfoldable pub get_parts : List Text → Value → Value
unfolding member
get_parts [] cur = cur
get_parts (p ∷ ps) undefined = undefined
get_parts (p ∷ ps) null = undefined
get_parts (p ∷ ps) cur = get_parts ps (member p cur)

unfoldable pub get_nested_value : Object → Text → Value
unfolding get_parts split
get_nested_value o path = get_parts (split b'.' path) (obj o)

-- The loop of `setNestedValue` and the assignment after it, on the copy of one level: each level on
-- the way is copied, or made where it is missing. `split` gives at least one part.
unfoldable pub set_parts : List Text → Value → Object → Object
unfolding get put spread_truthy
set_parts [] value cur = cur
set_parts (key ∷ []) value cur = put key value cur
set_parts (key ∷ next ∷ parts) value cur =
    put key (obj (set_parts (next ∷ parts) value (spread_truthy (get key cur)))) cur

unfoldable pub set_nested_value : Object → Text → Value → Object
unfolding set_parts split
set_nested_value o path value = set_parts (split b'.' path) value o

-- The controls that the page has for its fields.
pub data Control : Type 0 where
  number : Control
  checkbox : Control
  text : Control
  select : List Text → Control
  commas : Control
  lines : Control

-- What a control reports of a change: `e.target.value`, `e.target.checked`, or the option.
abbrev pub Entry : Control → Type 0
Entry checkbox = Bool
Entry (select _) = Option Text
Entry _ = Text

pub record Field : Type 0 where
  pub path : Text
  pub control : Control

abbrev pub general_fields : List Field
general_fields =
    record { path = codes "mixed-port"; control = number }
    ∷ record { path = codes "port"; control = number }
    ∷ record { path = codes "socks-port"; control = number }
    ∷ record { path = codes "allow-lan"; control = checkbox }
    ∷ record { path = codes "bind-address"; control = text }
    ∷ record {
      path = codes "mode";
      control = select (codes "rule" ∷ codes "global" ∷ codes "direct" ∷ []);
    }
    ∷ record {
      path = codes "log-level";
      control =
          select
            (codes "silent" ∷ codes "error" ∷ codes "warning" ∷ codes "info" ∷ codes "debug" ∷ []);
    }
    ∷ record { path = codes "ipv6"; control = checkbox }
    ∷ []

abbrev pub controller_fields : List Field
controller_fields =
    record { path = codes "external-controller"; control = text }
    ∷ record { path = codes "secret"; control = text }
    ∷ []

abbrev pub tun_fields : List Field
tun_fields =
    record { path = codes "tun.enable"; control = checkbox }
    ∷ record {
      path = codes "tun.stack";
      control = select (codes "system" ∷ codes "gvisor" ∷ codes "mixed" ∷ []);
    }
    ∷ record { path = codes "tun.dns-hijack"; control = commas }
    ∷ record { path = codes "tun.auto-route"; control = checkbox }
    ∷ []

abbrev pub dns_fields : List Field
dns_fields =
    record { path = codes "dns.enable"; control = checkbox }
    ∷ record { path = codes "dns.listen"; control = text }
    ∷ record {
      path = codes "dns.enhanced-mode";
      control = select (codes "fake-ip" ∷ codes "redir-host" ∷ []);
    }
    ∷ record { path = codes "dns.nameserver"; control = lines }
    ∷ record { path = codes "dns.fallback"; control = lines }
    ∷ []

abbrev pub fields : List Field
fields = general_fields ++ (controller_fields ++ (tun_fields ++ dns_fields))

abbrev pub of_texts : List Text → Items
of_texts [] = nil
of_texts (s ∷ ss) = cons (str s) (of_texts ss)

-- `s.split(',').map((s) => s.trim())`, and no item for an empty text.
unfoldable pub comma_items : Text → List Text
unfolding split trim
comma_items s = if is_empty s then [] else map trim (split b',' s)

-- `s.split('\n').map((s) => s.trim()).filter(Boolean)`, and no item for an empty text.
unfoldable pub line_items : Text → List Text
unfolding split trim
line_items s =
    if is_empty s then [] else keep (λ (p : Text). not (is_empty p)) (map trim (split 10 s))

-- An element as `join` writes it.
abbrev pub joined_text : (Value → Text) → Value → Text
joined_text to_text undefined = []
joined_text to_text null = []
joined_text to_text (str s) = s
joined_text to_text v = to_text v

abbrev pub joined_texts : (Value → Text) → Items → List Text
joined_texts to_text nil = []
joined_texts to_text (cons v vs) = joined_text to_text v ∷ joined_texts to_text vs

-- `Array.isArray(v) ? v.join(sep) : (v ?? '')`.
unfoldable pub shown_list : (Value → Text) → Text → Value → Value
unfolding join
shown_list to_text sep (arr items) = str (join sep (joined_texts to_text items))
shown_list to_text sep v = nullish v (str [])

-- What a control shows for a value: `checked` or `value`.
unfoldable pub shown : (Value → Text) → Control → Value → Value
unfolding shown_list
shown to_text checkbox v = bool (is_some (truthy v))
shown to_text commas v = shown_list to_text (codes ", ") v
shown to_text lines v = shown_list to_text (codes "\n") v
shown to_text _ v = nullish v (str [])

-- The value that `onChange` sets.
unfoldable pub entered : (Text → Number) → (c : Control) → Entry c → Value
unfolding comma_items line_items
entered to_number number s = if is_empty s then undefined else num (to_number s)
entered to_number checkbox b = bool b
entered to_number text s = str s
entered to_number (select _) none = null
entered to_number (select _) (some v) = str v
entered to_number commas s = arr (of_texts (comma_items s))
entered to_number lines s = arr (of_texts (line_items s))

pub record PageState : Type 0 where
  pub config : Object
  pub loading : Bool
  pub saving : Bool

abbrev pub first_page : PageState
first_page = record { config = empty; loading = false; saving = false }

-- The outcome of a request, and the toasts of the page.
pub data Outcome : Type 0 where
  answered : Value → Outcome
  failed : Outcome

pub data Toast : Type 0 where
  saved load_failed save_failed : Toast

-- `res.data ?? {}`, of an API that answers with an object or null.
abbrev pub object_of : Value → Object
object_of (obj o) = o
object_of _ = empty

abbrev pub start_fetch : PageState → PageState
start_fetch p = record { config = p.config; loading = true; saving = p.saving }

unfoldable pub finish_fetch : Outcome → PageState → PageState × List Toast
finish_fetch (answered v) p =
    (record { config = object_of v; loading = false; saving = p.saving }, [])
finish_fetch failed p =
    (record { config = p.config; loading = false; saving = p.saving }, load_failed ∷ [])

abbrev pub edit : (Text → Number) → (f : Field) → Entry f.control → PageState → PageState
edit to_number f x p = record {
  config = set_nested_value p.config f.path (entered to_number f.control x);
  loading = p.loading;
  saving = p.saving;
}

-- `get`.
abbrev pub field_value : PageState → Field → Value
field_value p f = get_nested_value p.config f.path

-- What a field shows.
abbrev pub shown_field : (Value → Text) → PageState → Field → Value
shown_field to_text p f = shown to_text f.control (field_value p f)

-- The body that `handleSave` sends.
unfoldable pub start_save : PageState → PageState × Object
start_save p = (record { config = p.config; loading = p.loading; saving = true }, p.config)

unfoldable pub finish_save : Outcome → PageState → PageState × List Toast
finish_save (answered _) p =
    (record { config = p.config; loading = p.loading; saving = false }, saved ∷ [])
finish_save failed p =
    (record { config = p.config; loading = p.loading; saving = false }, save_failed ∷ [])
