-- ===== src/Products/View/Form.antt =====
-- What the form of a product and the editor of its picture draw (web/src/pages/ProductFormPage.tsx).
use radif.Prelude.{
  if◌then◌else◌, present, text, Text, ℕ, Bool, true, false, not, ◌&&◌, Option, none, some, List, [],
  ◌∷◌, ◌++◌,
}
use radif.Shared.Api.{File}
use radif.Shared.Digits.{persian_digits}
use radif.Shared.Messages.{product_not_found}
use radif.Shared.Labels.{cancel_label, saving_label}
use radif.Shared.Drawing.{
  Node, words, notice, waiting, picture, link, button, field, when, when_text,
}
use radif.Products.Labels.{
  make_product_label, back_to_products, new_product_title, edit_product_title, save_changes_label,
  preparing_label, finish_crop_label, change_crop_label, pick_crop_label, back_to_current,
}
use radif.Products.Form
use radif.Products.Form.{Mode, is_edit, submit_disabled}
use radif.Products.ImageEditor
use radif.Products.ImageEditor.{cancel_disabled, finish_disabled}

pub data Handler : Type 0 where
  submit open_picker cancel_crop finish_crop drop_image : Handler
  type_name type_price type_description : Text → Handler

-- The cropper is a library; its buttons.
unfoldable pub crop_part : ImageEditor.State → List (Node Handler)
crop_part e =
    button cancel_label (cancel_disabled e) cancel_crop
    ∷ button (if e.working then preparing_label else finish_crop_label) (finish_disabled e)
        finish_crop
    ∷ []

-- `preview || existing`, of the texts of the two addresses.
unfoldable pub shown_picture : Text → Option Text → Text
shown_picture [] none = []
shown_picture [] (some existing) = existing
shown_picture (c ∷ preview) existing = c ∷ preview

unfoldable pub picture_part : Bool → Bool → Text → List (Node Handler)
picture_part has_file has_existing [] = button pick_crop_label false open_picker ∷ []
picture_part has_file has_existing (c ∷ shown) =
    picture (c ∷ shown)
    ∷ button change_crop_label false open_picker
    ∷ when (has_file && has_existing) (button back_to_current false drop_image ∷ [])

-- JavaScript's `Boolean` of an optional text.
unfoldable pub has_text : Option Text → Bool
has_text none = false
has_text (some []) = false
has_text (some (c ∷ t)) = true

-- `address` gives the text of an object URL.
unfoldable pub editor_view :
    (Option ℕ → Text) → Option Text → Option File → ImageEditor.State → List (Node Handler)
editor_view address existing file e =
    (if present e.source
      then crop_part e
      else picture_part (present file) (has_text existing)
          (shown_picture (address e.preview) existing))
    ++ when_text e.error (λ t. words t ∷ [])

unfoldable pub form_view : Text → List (Node Handler) → Mode → Form.State → List (Node Handler)
form_view shop_name editor mode s =
    link back_to_products false (text "/products")
    ∷ words shop_name
    ∷ words (if is_edit mode then edit_product_title else new_product_title)
    ∷ (editor
        ++ field s.name type_name
          ∷ field (persian_digits s.price) type_price
          ∷ field s.description type_description
          ∷ (when_text s.error (λ t. notice t ∷ [])
              ++ button
                  (if s.pending
                    then saving_label
                    else if is_edit mode
                    then save_changes_label
                    else make_product_label)
                  (submit_disabled mode s) submit
                ∷ []))

-- `error || …`
unfoldable pub missing_notice : Text → Text
missing_notice [] = product_not_found
missing_notice (c ∷ t) = c ∷ t

unfoldable pub view : Text → List (Node Handler) → Mode → Form.State → List (Node Handler)
view shop_name editor mode s =
    if s.loading
    then waiting ∷ []
    else if is_edit mode && not (present s.product)
    then link back_to_products false (text "/products") ∷ notice (missing_notice s.error) ∷ []
    else form_view shop_name editor mode s
