-- ===== src/Witnesses/Publish.antt =====
-- A history of the preview, and a publication that fails.
use mihomo_cp.Prelude.{true, some}
use mihomo_cp.Js.Text.{codes}
use mihomo_cp.Publish.{ValidationResult, PublishRecord, PreviewState, initial_state}

abbrev failure : PublishRecord
failure = record { status = codes "failed"; error_msg = some (codes "no") }

abbrev verdict : ValidationResult
verdict = record { valid = true; error_count = 0 }

abbrev checked : PreviewState
checked = record initial_state { validation = some verdict; note = codes "n" }
