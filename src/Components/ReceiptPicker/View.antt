-- ===== src/Components/ReceiptPicker/View.antt =====
-- What the picker of a receipt draws (web/src/components.tsx: ReceiptPicker).
use radif.Prelude.{Text, ℕ, Bool, true, false, Option, none, some, List, [], ◌∷◌}
use radif.Shared.Api.{File}
use radif.Shared.Drawing.{Node, words, picture, button}
use radif.Components.Labels.{
  pick_receipt_label, change_picture_label, remove_label, preparing_picture,
}

-- `open_picker` and `removed` are the handlers, `preview` the address of the shown picture, and
-- `megabytes` tells the size in megabytes.
unfoldable pub receipt_view :
    {A : Type 0} → (ℕ → Text) → A → A → Bool → Option File → Text → List (Node A)
receipt_view megabytes open_picker removed true file preview = words preparing_picture ∷ []
receipt_view megabytes open_picker removed false none preview =
    button pick_receipt_label false open_picker ∷ []
receipt_view megabytes open_picker removed false (some file) preview =
    picture preview
    ∷ words file.name
    ∷ words (megabytes file.size)
    ∷ button change_picture_label false open_picker
    ∷ button remove_label false removed
    ∷ []
