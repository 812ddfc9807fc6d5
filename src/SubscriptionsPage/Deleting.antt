-- ===== src/SubscriptionsPage/Deleting.antt =====
-- What a deletion that fails tells.
use mihomo_cp.Prelude.{List, Option, none, some}
use mihomo_cp.Js.Text.{Text}
use mihomo_cp.Subscription.Form.{Subscription}
use mihomo_cp.SubscriptionsPage.{Toast, delete_blocked}

-- The groups that a toast names.
abbrev pub groups_of : Toast → Option (List Text)
groups_of (delete_blocked groups) = some groups
groups_of _ = none
