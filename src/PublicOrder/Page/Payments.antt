-- ===== src/PublicOrder/Page/Payments.antt =====
-- The head, the products and the payments of a customer's page (web/src/pages/PublicOrderPage.tsx).
use radif.Prelude.{
  ltb, if◌then◌else◌, or_else, text, text_eq, Text, ℕ, ◌-◌, ◌*◌, ◌==◌, Option, none, some, Bool,
  true, false, not, ◌&&◌, List, [], ◌∷◌, ◌++◌,
}
use radif.Shared.Types.{PublicOrder, PublicItem}
use radif.Shared.Digits.{persian_digits}
use radif.Shared.Drawing.{
  Node, words, notice, picture, button, Display, when, when_text, when_some, flat_map,
}
use radif.Shared.Labels.{tomans, copied_label}
use radif.Components.ReceiptPicker.View.{receipt_view}
use radif.PublicOrder.Labels.{
  pieces, shop_checks_first, shop_checks, order_amount_text, amount_text, tomans_to, one_of_numbers,
  card_below, transfer_text, discount_label, rials, copy_amount_label, copy_label, paid_later,
  amount_not_copied, card_not_copied, iban_not_copied, final_receipt_sent, sending_label,
  send_final_label,
}
use radif.PublicOrder.State.{State, CopyState, copied, failed, DraftField}
use radif.PublicOrder.Payment.{
  truthy_number, truthy_text, iban, initial_payment_active, final_payment_active, shows_payment,
  FinalReceiptView, nothing, under_review, form, final_receipt_view,
}
use radif.PublicOrder.View.{
  status_line, shows_checking, badge_text, first_badge, final_badge, payment_heading, told_amount,
  drawn_card, drawn_iban, payment_instructions,
}

pub data Handler : Type 0 where
  reload open_picker remove_receipt open_final_picker remove_final_receipt : Handler
  update : DraftField → Text → Handler
  copy_amount copy_card copy_iban submit_details submit_final : Handler

-- The handlers that copy what a payment needs, and those that send.
unfoldable pub is_serious : Handler → Bool
is_serious copy_amount = true
is_serious copy_card = true
is_serious copy_iban = true
is_serious submit_details = true
is_serious submit_final = true
is_serious _ = false

-- What the page is given besides its state: the browser's formats, that of a negative number and of a
-- file's size too, and for its two pickers the shown picture and whether one is being prepared.
pub record Look : Type 0 where
  pub display : Display
  pub negative : ℕ → Text
  pub megabytes : ℕ → Text
  pub preview : Text
  pub preparing : Bool
  pub final_preview : Text
  pub preparing_final : Bool

unfoldable pub difference : Look → ℕ → ℕ → Text
difference l a b = if ltb a b then l.negative (b - a) else l.display.number (a - b)

unfoldable pub item_nodes : Display → PublicItem → List (Node Handler)
item_nodes d item =
    picture item.image_path ∷ words item.name ∷ words (d.number item.quantity ++ pieces) ∷ []

-- The receipt, by what the order calls it.
unfoldable pub receipt_name : PublicOrder → Text
receipt_name o = if truthy_number o.initial_payment_amount then shop_checks_first else shop_checks

unfoldable pub head_part : Display → PublicOrder → List (Node Handler)
head_part d o =
    when_some o.shop.logo_path (λ path. picture path ∷ [])
    ++ words o.shop.name
      ∷ words (persian_digits o.order_code)
      ∷ words (status_line o o.status)
      ∷ (when (shows_checking o) (words (receipt_name o) ∷ [])
          ++ (when o.customer_submitted (words (d.date_time o.updated_at) ∷ [])
              ++ words (d.date o.estimated_delivery_date) ∷ flat_map (item_nodes d) o.items))

unfoldable pub copy_text_of : CopyState → Text → Text
copy_text_of copied label = copied_label
copy_text_of _ label = label

unfoldable pub amount_button : Look → CopyState → Text → ℕ → List (Node Handler)
amount_button l state label amount =
    words (l.display.number (amount * 10) ++ rials)
    ∷ button (copy_text_of state label) false copy_amount
    ∷ []

-- `originalAmount ? … : …`
unfoldable pub total_nodes : Look → PublicOrder → List (Node Handler)
total_nodes l o =
    if truthy_number o.original_amount
    then words (l.display.number (or_else o.original_amount 0) ++ tomans)
      ∷ words (l.display.number o.amount ++ tomans)
      ∷ words (difference l (or_else o.original_amount 0) o.amount ++ discount_label)
      ∷ []
    else words (l.display.number o.amount ++ tomans) ∷ []

unfoldable pub plan_part : Look → State → PublicOrder → List (Node Handler)
plan_part l s o =
    total_nodes l o
    ++ words (badge_text (first_badge o))
      ∷ words (l.display.number (or_else o.initial_payment_amount 0) ++ tomans)
      ∷ (when (initial_payment_active o) (
            amount_button l s.amount_copy_state copy_amount_label
              (or_else o.initial_payment_amount 0))
          ++ words (badge_text (final_badge o))
            ∷ words (l.display.number (or_else o.final_payment_amount 0) ++ tomans)
            ∷ (when (final_payment_active o) (
                  amount_button l s.amount_copy_state copy_amount_label
                    (or_else o.final_payment_amount 0))
                ++ when (not o.final_payment_requested && not (text_eq o.status (text "cancelled")))
                    (words paid_later ∷ [])))

-- The button of an order in one part, which tells the price before a discount, too.
unfoldable pub single_part : Look → State → PublicOrder → List (Node Handler)
single_part l s o =
    when (truthy_number o.original_amount)
      (words (l.display.number (or_else o.original_amount 0) ++ tomans) ∷ [])
    ++ words (l.display.number o.amount ++ tomans)
      ∷ amount_button l s.amount_copy_state
          (if truthy_number o.original_amount then copy_amount_label else copy_label) o.amount

unfoldable pub amount_part : Look → State → PublicOrder → List (Node Handler)
amount_part l s o =
    if truthy_number o.initial_payment_amount then plan_part l s o else single_part l s o

unfoldable pub failed_notice : CopyState → Text → List (Node Handler)
failed_notice failed message = words message ∷ []
failed_notice _ message = []

unfoldable pub told_text : Look → PublicOrder → Text
told_text l o =
    (if truthy_number o.initial_payment_amount
      then amount_text ++ l.display.number (told_amount o) ++ tomans_to
      else order_amount_text)
    ++ (if truthy_text (iban o) then one_of_numbers else card_below)
    ++ transfer_text

unfoldable pub card_part : Look → State → PublicOrder → List (Node Handler)
card_part l s o =
    words (payment_heading o)
    ∷ words (told_text l o)
    ∷ button (copy_text_of s.copy_state copy_label) false copy_card
    ∷ (when_some (drawn_card o) (λ t. words t ∷ [])
        ++ (when (truthy_text (iban o)) (
              button (copy_text_of s.iban_copy_state copy_label) false copy_iban
              ∷ words (or_else (drawn_iban o) [])
              ∷ [])
            ++ (when_some (payment_instructions o) (λ t. words t ∷ [])
                ++ (failed_notice s.copy_state card_not_copied
                    ++ failed_notice s.iban_copy_state iban_not_copied))))

unfoldable pub final_form : Look → State → List (Node Handler)
final_form l s =
    receipt_view l.megabytes open_final_picker remove_final_receipt l.preparing_final
      s.final_receipt l.final_preview
    ++ (when_text s.final_receipt_error (λ e. words e ∷ [])
        ++ (when_text s.final_error (λ e. notice e ∷ [])
            ++ button (if s.final_pending then sending_label else send_final_label) s.final_pending
                submit_final
              ∷ []))

unfoldable pub final_part : Look → State → FinalReceiptView → List (Node Handler)
final_part l s nothing = []
final_part l s under_review = words final_receipt_sent ∷ []
final_part l s form = final_form l s

-- An amount of 0 before `&&` is drawn.
unfoldable pub drawn_zero : Option ℕ → List (Node Handler)
drawn_zero (some n) = when (n == 0) (words (text "0") ∷ [])
drawn_zero none = []

unfoldable pub payments_part : Look → State → PublicOrder → List (Node Handler)
payments_part l s o =
    amount_part l s o
    ++ (failed_notice s.amount_copy_state amount_not_copied
        ++ (when (shows_payment o) (card_part l s o)
            ++ (drawn_zero o.initial_payment_amount ++ final_part l s (final_receipt_view o))))
