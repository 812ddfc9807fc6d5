-- ===== src/Witnesses/SystemConfig.antt =====
-- The page of the system configuration at concrete configurations.
use mihomo_cp.Prelude.{◌≡◌, refl, inl, inr, false, true, List, [], ◌∷◌, ◌++◌, In}
use mihomo_cp.Js.Text.{Text, codes, text_eq, trim}
use mihomo_cp.Js.Text.Split.{join}
use mihomo_cp.Js.Value.{str, arr, obj, bool, num, int, empty, field}
use mihomo_cp.SystemConfig.{
  Field, checkbox, lines, fields, PageState, edit, start_save, entered, shown, get_nested_value,
  set_nested_value, comma_items, of_texts,
}
use mihomo_cp.SystemConfig.Fields.{start_save-edit}
use mihomo_cp.SystemConfig.Lists.{Line, shown-entered}
use mihomo_cp.Witnesses.Inputs.{digit, plain_text}

abbrev page : PageState
page = record {
  config =
      field (codes "port") (num (int 1))
        (field (codes "tun") (obj (field (codes "stack") (str (codes "system")) empty)) empty);
  loading = false;
  saving = false;
}

abbrev tun_enable : Field
tun_enable = record { path = codes "tun.enable"; control = checkbox }

tun_enable-In : In tun_enable fields
tun_enable-In = inr (inr (inr (inr (inr (inr (inr (inr (inr (inr (inl refl))))))))))

start_save-edit_example :
    (get_nested_value ((start_save (edit digit tun_enable true page)).1) (codes "tun.enable")
      ≡ bool true)
    × ((g : Field)
        → In g fields
        → text_eq (codes "tun.enable") g.path ≡ false
        → get_nested_value ((start_save (edit digit tun_enable true page)).1) g.path
          ≡ get_nested_value page.config g.path)
unfolding entered
start_save-edit_example = start_save-edit digit tun_enable true page tun_enable-In

-- An assignment below a value that is no object makes one.
below_a_number :
    get_nested_value (set_nested_value page.config (codes "port.x") (bool true)) (codes "port.x")
    ≡ bool true
unfolding get_nested_value set_nested_value
below_a_number = refl

-- A comma at the end gives an empty item.
open_comma : comma_items (codes "any:53,") ≡ codes "any:53" ∷ [] ∷ []
unfolding comma_items
open_comma = refl

google-Line : Line (codes "8.8.8.8")
unfolding trim
google-Line = record {
  plain = (refl, (refl, (refl, (refl, (refl, (refl, (refl, tt)))))));
  trimmed = refl;
  full = refl;
}

abbrev servers : List Text
servers = codes "8.8.8.8" ∷ codes "8.8.8.8" ∷ []

shown-entered_example :
    (shown plain_text lines (arr (of_texts servers)) ≡ str (join (codes "\n") servers))
    × (entered digit lines (join (codes "\n") servers) ≡ arr (of_texts servers))
    × (shown plain_text lines (entered digit lines (join (codes "\n") servers ++ codes "\n"))
        ≡ shown plain_text lines (arr (of_texts servers)))
shown-entered_example = shown-entered plain_text digit servers (google-Line, (google-Line, tt))
