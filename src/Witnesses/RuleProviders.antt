-- ===== src/Witnesses/RuleProviders.antt =====
-- The page of the rule providers at concrete ones.
use mihomo_cp.Prelude.{◌≡◌, refl, ◌⊎◌, List, [], ◌∷◌, some}
use mihomo_cp.Js.Text.{Text, codes, text_eq}
use mihomo_cp.Js.Value.{str, empty, field}
use mihomo_cp.Api
use mihomo_cp.RuleProviders.{
  RuleProvider, done, failed, step, delete_clicked, delete_answered, confirmed, send, first_page,
  PageState,
}
use mihomo_cp.RuleProviders.Editor
use mihomo_cp.RuleProviders.Deleting.{Reached, at_first, after, step-confirmed}

abbrev ads : RuleProvider
ads = record {
  id = codes "7";
  name = codes "ads";
  type = codes "http";
  behavior = codes "domain";
  config =
      field (codes "path") (str (codes "a.yaml"))
        (field (codes "url") (str (codes "u")) (field (codes "format") (str (codes "mrs")) empty));
}

abbrev lan : RuleProvider
lan = record ads { id = codes "8"; name = codes "lan" }

-- The content of `ads` comes and is edited.
abbrev edited : List Editor.Event
edited =
    Editor.types (codes "y")
    ∷ Editor.answered (codes "7") (done (some (codes "x")))
    ∷ Editor.opens ads
    ∷ []

saves-LastFor_example :
    (p : RuleProvider) × ((Editor.state_after edited).provider ≡ some p)
    × (Api.rule_providers (Api.update_content (codes "7"))
        ≡ Api.rule_providers (Api.update_content p.id))
    × Editor.LastFor edited p.id (codes "y")
unfolding Editor.step Editor.state_after Editor.without text_eq
saves-LastFor_example =
    Editor.saves-LastFor edited (Api.rule_providers (Api.update_content (codes "7"))) (codes "y")
      (refl, ((refl, (some (codes "x"), refl)), (refl, tt))) refl

-- The answer for `ads` comes after the one for `lan`, which the editor was opened for next: saving
-- writes the content of `ads` into `lan`.
late_answer :
    (Editor.step Editor.saves (
      Editor.state_after (
        Editor.answered (codes "7") (done (some (codes "of ads")))
        ∷ Editor.answered (codes "8") (done (some (codes "of lan")))
        ∷ Editor.opens lan
        ∷ Editor.closes
        ∷ Editor.opens ads
        ∷ []))).1
    ≡ some (Api.rule_providers (Api.update_content (codes "8")), codes "of ads")
unfolding Editor.step Editor.state_after Editor.without text_eq
late_answer = refl

-- The request for `lan` fails, and the text of `ads` stays in the editor.
failed_answer :
    (Editor.step Editor.saves (
      Editor.state_after (
        Editor.answered (codes "8") failed
        ∷ Editor.opens lan
        ∷ Editor.closes
        ∷ Editor.answered (codes "7") (done (some (codes "of ads")))
        ∷ Editor.opens ads
        ∷ []))).1
    ≡ some (Api.rule_providers (Api.update_content (codes "8")), codes "of ads")
unfolding Editor.step Editor.state_after Editor.without text_eq
failed_answer = refl

abbrev asked : PageState
unfolding step
asked = (step (delete_clicked ads) first_page).0

asked-Reached : Reached (some (codes "7")) asked
unfolding asked
asked-Reached = after (delete_clicked ads) at_first

step-confirmed_example :
    ((step confirmed asked).1 ≡ [])
    ⊎ ((id : Text) × ((some (codes "7") ≡ some id)
          × ((step confirmed asked).1
              ≡ send (Api.rule_providers (Api.delete_rule_provider id)) ∷ [])))
step-confirmed_example = step-confirmed asked-Reached

-- The answer to an earlier deletion takes back what is up for confirmation.
confirmation_lost : (step confirmed (step (delete_answered (done tt)) asked).0).1 ≡ []
unfolding step asked
confirmation_lost = refl
