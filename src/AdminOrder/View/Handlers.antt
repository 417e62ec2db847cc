-- ===== src/AdminOrder/View/Handlers.antt =====
-- The handlers of the controls of an order's page (web/src/pages/AdminOrderPage.tsx).
use radif.Prelude.{Bool, true, false}
use radif.AdminOrder.Save.{Section}
use radif.AdminOrder.Fields.{Edit}

pub data Handler : Type 0 where
  copy_message share_message copy_final : Handler
  save_section : Section → Handler
  submit_customer rotate_link ask_final accept_final : Handler
  change : Edit → Handler

-- Whether a handler may call the server to change the order.
unfoldable pub changes_order : Handler → Bool
changes_order (save_section _) = true
changes_order submit_customer = true
changes_order rotate_link = true
changes_order ask_final = true
changes_order accept_final = true
changes_order _ = false
