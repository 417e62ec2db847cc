-- ===== src/Shared/Statuses.antt =====
-- The labels of the statuses (web/src/shared.ts: publicStatusLabels, adminStatusLabels).
use radif.Prelude.{if◌then◌else◌, text, text_eq, Text, Option, none, some, List, [], ◌∷◌}
use radif.Shared.Messages.{
  waiting_your_details, waiting_customer_details, waiting_confirmation, paid_label, preparing_label,
  shipped_label, cancelled_label,
}

unfoldable pub public_status_labels : List (Text × Text)
public_status_labels =
    (text "waiting_info", waiting_your_details)
    ∷ (text "waiting_payment", waiting_confirmation)
    ∷ (text "paid", paid_label)
    ∷ (text "preparing", preparing_label)
    ∷ (text "shipped", shipped_label)
    ∷ (text "cancelled", cancelled_label)
    ∷ []

-- An object with one key given anew, which keeps the key's place.
unfoldable pub with_label : Text → Text → List (Text × Text) → List (Text × Text)
with_label key label [] = (key, label) ∷ []
with_label key label ((k, l) ∷ labels) =
    let rest = with_label key label labels in
    if text_eq key k then (k, label) ∷ labels else (k, l) ∷ rest

unfoldable pub admin_status_labels : List (Text × Text)
unfolding with_label public_status_labels
admin_status_labels = with_label (text "waiting_info") waiting_customer_details public_status_labels

unfoldable pub label_in : List (Text × Text) → Text → Option Text
label_in [] status = none
label_in ((k, l) ∷ labels) status =
    let rest = label_in labels status in if text_eq status k then some l else rest
