-- ===== src/Publish/Verdict.antt =====
-- When publishing is offered, and what is told after it.
use mihomo_cp.Prelude.{◌≡◌, refl, inl, inr, Bool, true, List, [], ◌∷◌, Option, none, some, In}
use mihomo_cp.Js.Text.{Text}
use mihomo_cp.Publish.{
  ValidationResult, PublishRecord, PreviewState, initial_state, published_success,
  publish_failed_with, error_text, finish_validate, finish_publish, finish_discard, is_failed,
}

-- What has happened to the preview since it was shown.
pub data Event : Type 0 where
  validated : Option ValidationResult → Event
  published : Option PublishRecord → Event
  discarded : Bool → Event
  noted : Text → Event

unfoldable pub happen : Event → PreviewState → PreviewState
unfolding finish_validate finish_publish finish_discard
happen (validated r) s = (finish_validate r s).0
happen (published r) s = (finish_publish r s).0
happen (discarded ok) s = (finish_discard ok s).0
happen (noted text) s = record s { note = text }

-- The state after a history, whose last event stands first.
unfoldable pub after : List Event → PreviewState
unfolding happen
after [] = initial_state
after (e ∷ earlier) = happen e (after earlier)

-- The last answer to a validation was `valid`, and no publication has succeeded since then.
abbrev pub ValidSince : List Event → Type 0
ValidSince [] = ⊥
ValidSince (validated (some r) ∷ es) = r.valid ≡ true
ValidSince (validated none ∷ es) = ValidSince es
ValidSince (published (some r) ∷ es) = (is_failed r ≡ true) × ValidSince es
ValidSince (published none ∷ es) = ValidSince es
ValidSince (discarded ok ∷ es) = ValidSince es
ValidSince (noted text ∷ es) = ValidSince es

-- A publication that the server reports as failed keeps the note and the verdict; and it is told both
-- as a failure, with the text of the server, and as a success.
finish_publish-failed :
    (r : PublishRecord) (s : PreviewState)
    → is_failed r ≡ true
    → ((finish_publish (some r) s).0.note ≡ s.note)
      × ((finish_publish (some r) s).0.validation ≡ s.validation)
      × In (publish_failed_with (error_text r.error_msg)) (finish_publish (some r) s).1
      × In published_success (finish_publish (some r) s).1
unfolding finish_publish
finish_publish-failed r s bad =
    rw (bad, finish_publish) (refl, refl, inl refl, inr (inr (inr (inl refl))))
