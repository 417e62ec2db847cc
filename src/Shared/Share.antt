-- ===== src/Shared/Share.antt =====
-- The message that a shop shares for an order (web/src/shared.ts: orderShareMessage). The number
-- and date formats of `Intl` are arguments: `persianNumber` and `persianDate`.
pub mod Laws
use radif.Prelude.{
  if◌then◌else◌, text, starts_with, Text, ℕ, zero, suc, ◌-◌, ◌||◌, Option, none, some, [], ◌∷◌,
  ◌++◌,
}
use radif.Shared.Templates.{default_share_message_template}

pub data Placeholder : Type 0 where
  shop_name order_code customer_url amount delivery_date : Placeholder

unfoldable pub placeholder_text : Placeholder → Text
placeholder_text shop_name = text "{shopName}"
placeholder_text order_code = text "{orderCode}"
placeholder_text customer_url = text "{customerUrl}"
placeholder_text amount = text "{amount}"
placeholder_text delivery_date = text "{deliveryDate}"

-- The alternative of the pattern that matches here, if one does, and its length.
unfoldable pub placeholder_at : Text → Option (Placeholder × ℕ)
unfolding placeholder_text
placeholder_at s =
    if starts_with s (text "{shopName}")
    then some (shop_name, 10)
    else if starts_with s (text "{orderCode}")
    then some (order_code, 11)
    else if starts_with s (text "{customerUrl}")
    then some (customer_url, 13)
    else if starts_with s (text "{amount}")
    then some (amount, 8)
    else if starts_with s (text "{deliveryDate}")
    then some (delivery_date, 14)
    else none

-- The global replacement: `skip` units of the last match are still to be passed over.
unfoldable pub replace_from : (Placeholder → Text) → ℕ → Text → Text
replace_from values skip [] = []
replace_from values (suc skip) (c ∷ s) = replace_from values skip s
replace_from values zero (c ∷ s) = elim (placeholder_at (c ∷ s)) [
  | none ↦ c ∷ replace_from values zero s
  | some (p, n) ↦ values p ++ replace_from values (n - 1) s
]

unfoldable pub replace_placeholders : (Placeholder → Text) → Text → Text
unfolding replace_from placeholder_at
replace_placeholders values template = replace_from values zero template

pub record Formats : Type 0 where
  pub persian_number : ℕ → Text
  pub persian_date : Text → Text

abbrev tomans : Text
tomans = text " \u{62a}\u{648}\u{645}\u{627}\u{646}"

unfoldable pub message_values : Formats → Text → Text → Text → Text → ℕ → Placeholder → Text
message_values f name code url date n shop_name = name
message_values f name code url date n order_code = code
message_values f name code url date n customer_url = url
message_values f name code url date n amount = f.persian_number n ++ tomans
message_values f name code url date n delivery_date = f.persian_date date

-- `shop.shareMessageTemplate || defaultShareMessageTemplate`: an empty template counts as absent
unfoldable pub template_or_default : Option Text → Text
template_or_default none = default_share_message_template
template_or_default (some []) = default_share_message_template
template_or_default (some (c ∷ s)) = c ∷ s

-- The shop's name and template, then the order's code, link and date, and the amount.
unfoldable pub order_share_message : Formats → Text → Option Text → Text → Text → Text → ℕ → Text
unfolding message_values template_or_default replace_placeholders
order_share_message f name template code url date n =
    replace_placeholders (message_values f name code url date n) (template_or_default template)
