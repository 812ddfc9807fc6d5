-- ===== src/Settings.antt =====
-- The settings page, web/src/pages/settings.tsx: the application settings, the users, and the editor
-- of the configuration with its draft on the server (internal/handler/settings.go).
pub mod App
pub mod Users
pub mod Deleting
pub mod Draft
use mihomo_cp.Prelude.{List, [], ◌∷◌, Bool, Option, none, some}
use mihomo_cp.Js.Text.{Text}

-- A request that was answered with data, or that threw.
pub data Outcome (A : Type 0) : Type 0 where
  done : A → Outcome A
  failed : Outcome A

pub data Toast : Type 0 where
  settings_saved settings_save_failed : Toast
  username_required password_required : Toast
  user_updated user_created user_update_failed user_create_failed : Toast
  cannot_delete_self user_deleted user_delete_failed : Toast
  config_load_failed config_saved config_save_failed : Toast
  config_draft_cleared config_clear_failed : Toast
