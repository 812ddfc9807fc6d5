-- ===== src/Publish.antt =====
-- Publishing: the handlers of web/src/components/publish/publish-preview.tsx with the callbacks that
-- web/src/pages/publish.tsx passes to it. What a handler does to the world is a list of effects.
pub mod Verdict
use mihomo_cp.Prelude.{ℕ, Bool, true, false, List, [], ◌∷◌, ◌++◌, Option, none, some, if◌then◌else◌}
use mihomo_cp.Js.Text.{Text, codes, text_eq, non_empty}

pub record ValidationResult : Type 0 where
  pub valid : Bool
  pub error_count : ℕ

-- The status and `error_msg` of a publish record.
pub record PublishRecord : Type 0 where
  pub status : Text
  pub error_msg : Option Text

pub record PreviewState : Type 0 where
  pub validating : Bool
  pub publishing : Bool
  pub discarding : Bool
  pub validation : Option ValidationResult
  pub note : Text

abbrev pub initial_state : PreviewState
initial_state = record {
  validating = false;
  publishing = false;
  discarding = false;
  validation = none;
  note = [];
}

-- Toasts, good and bad, and the requests that the page sends.
pub data Effect : Type 0 where
  config_valid : Effect
  validation_failed : ℕ → Effect
  validation_error : Effect
  publish_success : Effect
  publish_failed : Effect
  publish_failed_with : Text → Effect
  published_success : Effect
  discard_success : Effect
  discard_failed : Effect
  fetch_status : Effect
  fetch_history : Effect
  fetch_preview : Effect

-- A request that succeeds with its data, or fails; `none` is a failure.
unfoldable pub finish_validate : Option ValidationResult → PreviewState → PreviewState × List Effect
finish_validate (some result) s = (
  record s { validation = some result; validating = false },
  (if result.valid then config_valid else validation_failed result.error_count) ∷ [],
)
finish_validate none s = (record s { validating = false }, validation_error ∷ [])

-- `handlePublished` of the page.
abbrev pub handle_published : List Effect
handle_published = fetch_status ∷ fetch_history ∷ published_success ∷ []

-- `handleDiscarded` of the page.
abbrev pub handle_discarded : List Effect
handle_discarded = fetch_status ∷ fetch_preview ∷ []

abbrev pub is_failed : PublishRecord → Bool
is_failed r = text_eq r.status (codes "failed")

-- `error_msg || 'unknown error'`.
abbrev pub error_text : Option Text → Text
error_text none = codes "unknown error"
error_text (some []) = codes "unknown error"
error_text (some (c ∷ s)) = c ∷ s

-- The note that is sent: `note || undefined`.
unfoldable pub sent_note : PreviewState → Option Text
sent_note s = non_empty s.note

unfoldable pub finish_publish : Option PublishRecord → PreviewState → PreviewState × List Effect
unfolding text_eq
finish_publish (some r) s =
    if is_failed r
    then (
      record s { publishing = false },
      publish_failed_with (error_text r.error_msg) ∷ handle_published,
    )
    else (
      record s { publishing = false; note = []; validation = none },
      publish_success ∷ handle_published,
    )
finish_publish none s = (record s { publishing = false }, publish_failed ∷ [])

unfoldable pub finish_discard : Bool → PreviewState → PreviewState × List Effect
finish_discard true s = (record s { discarding = false }, discard_success ∷ handle_discarded)
finish_discard false s = (record s { discarding = false }, discard_failed ∷ [])

unfoldable pub can_publish : PreviewState → Bool
can_publish s = elim s.validation [ none ↦ false | some result ↦ result.valid ]
