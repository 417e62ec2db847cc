-- ===== src/Shared/Channels.antt =====
-- The sales channels with their labels (web/src/shared.ts: salesChannels, salesChannelLabels), and the
-- colours of a status (statusStyles).
use radif.Prelude.{
  if◌then◌else◌, text, text_eq, Text, false, Option, none, some, List, [], ◌∷◌, map,
}
use radif.Shared.Types.{SalesChannel, instagram, whatsapp, telegram, bale, other}
use radif.Shared.Storage.{sales_channels, channel_text}
use radif.Shared.Drawing.{Choice}
use radif.Shared.Labels.{instagram_label, whatsapp_label, telegram_label, bale_label, other_label}

unfoldable pub sales_channel_label : SalesChannel → Text
sales_channel_label instagram = instagram_label
sales_channel_label whatsapp = whatsapp_label
sales_channel_label telegram = telegram_label
sales_channel_label bale = bale_label
sales_channel_label other = other_label

-- The options of a choice between the channels.
unfoldable pub channel_options : {A : Type 0} → (SalesChannel → A) → List (Choice A)
channel_options pick =
    map
      (λ c. record {
        value = channel_text c;
        label = sales_channel_label c;
        disabled = false;
        picked = pick c;
      })
      sales_channels

pub record Style : Type 0 where
  pub rail : Text
  pub chip : Text

abbrev style : Text → Text → Style
style rail chip = record { rail = rail; chip = chip }

abbrev pub status_styles : List (Text × Style)
status_styles =
    (text "waiting_info", style (text "border-saffron") (text "bg-saffron/15 text-ink"))
    ∷ (text "waiting_payment", style (text "border-saffron") (text "bg-saffron/15 text-ink"))
    ∷ (text "paid", style (text "border-teal") (text "bg-teal/12 text-teal"))
    ∷ (text "preparing", style (text "border-ink") (text "bg-ledger text-ink"))
    ∷ (text "shipped", style (text "border-teal") (text "bg-teal text-white"))
    ∷ (text "cancelled", style (text "border-error") (text "bg-error/10 text-error"))
    ∷ []

abbrev style_in : List (Text × Style) → Text → Option Style
style_in [] status = none
style_in ((k, s) ∷ styles) status =
    let rest = style_in styles status in if text_eq status k then some s else rest

unfoldable pub status_style : Text → Option Style
status_style status = style_in status_styles status

-- `statusStyles[status]?.rail ?? "border-ink"`
unfoldable pub status_rail : Text → Text
unfolding status_style
status_rail status = elim (status_style status) [ none ↦ text "border-ink" | some s ↦ s.rail ]
