-- ===== src/Products/Crop.antt =====
-- The form of a product with the editor of its picture (web/src/pages/ProductFormPage.tsx): the
-- editor hands its picture to the form and tells it whether a crop is open.
pub mod Laws
pub mod Invariant
use radif.Prelude.{
  present, text, text_eq, Text, ℕ, ◌≡◌, Bool, true, false, ◌&&◌, Option, none, some, List, [],
}
use radif.Shared.Api.{File, Settled}
use radif.Shared.Types.{Product}
use radif.Products.Form.{
  Mode, State, init, type_price, type_name, type_description, pick_image, set_cropping, loaded,
  settle, fields_invalid,
}
use radif.Products.ImageEditor.{
  State as Editor, init as init_editor, Area, Browser, crop_image, choose, measure, to_crop,
  begin_crop, settle_crop, cancel_crop, cancel_disabled, finish_disabled, show_preview, source_left,
}
use radif.Products.Urls.{Owns}

-- `asked` is the source of the crop that is being made, if one is.
pub record Page : Type 0 where
  pub form : State
  pub editor : Editor
  pub asked : Option ℕ

unfoldable pub blank : Mode → Page
blank mode = record { form = init mode; editor = init_editor; asked = none }

-- The editor after a handler of it: the effects of its source clean up and tell the form.
unfoldable pub with_editor : Editor → Page → Page
with_editor e p = record p {
  editor = source_left p.editor.source e;
  form = set_cropping (present e.source) p.form;
}

-- `onChange`, with the effect of the file.
unfoldable pub hand : Option File → Page → Page
hand image p = record p { form = pick_image image p.form; editor = show_preview image p.editor }

unfoldable pub with_picture : Editor × Option File → Page → Page
unfolding with_editor hand
with_picture (e, none) p = record (with_editor e p) { asked = none }
with_picture (e, some file) p = record (hand (some file) (with_editor e p)) { asked = none }

-- What can happen. A picture is chosen where no crop is open, since its buttons are drawn only then.
pub data Step : Page → Page → Type 0 where
  chosen :
      (p : Page) (file : Option File)
      → p.editor.source ≡ none
      → Step p (with_editor (choose file p.editor) p)
  measured : (p : Page) (area : Area) → Step p (with_editor (measure area p.editor) p)
  crop_asked :
      (p : Page) (source : ℕ) (area : Area)
      → finish_disabled p.editor ≡ false
      → to_crop p.editor ≡ some (source, area)
      → Step p (record (with_editor (begin_crop p.editor) p) { asked = some source })
  crop_made :
      (p : Page) (browser : Browser) (source : ℕ) (area : Area)
      → p.asked ≡ some source
      → Step p (with_picture (settle_crop source (crop_image browser source area) p.editor) p)
  cancelled :
      (p : Page) → cancel_disabled p.editor ≡ false → Step p (with_editor (cancel_crop p.editor) p)
  restored : (p : Page) → Step p (hand none p)
  name_typed : (p : Page) (typed : Text) → Step p (record p { form = type_name typed p.form })
  price_typed : (p : Page) (typed : Text) → Step p (record p { form = type_price typed p.form })
  description_typed :
      (p : Page) (typed : Text) → Step p (record p { form = type_description typed p.form })
  product_came :
      (p : Page) (id : ℕ) (reply : Settled (List Product)) (aborted : Bool)
      → Step p (record p { form = loaded id reply aborted p.form })
  refused :
      (p : Page) (message : Text) → Step p (record p { form = record p.form { error = message } })
  sent :
      (p : Page) (mode : Mode)
      → p.form.cropping ≡ false
      → fields_invalid mode p.form ≡ false
      → Step p (record p { form = record p.form { pending = true; error = [] } })
  answered :
      (p : Page) (reply : Settled (Unit {0})) → Step p (record p { form = (settle reply p.form).0 })

pub data Reach (p : Page) : Page → Type 0 where
  here : Reach p p
  next : {q r : Page} → Reach p q → Step q r → Reach p r

unfoldable pub is_cropped : Option File → Bool
is_cropped none = true
is_cropped (some file) =
    text_eq file.name (text "product.webp") && text_eq file.type (text "image/webp")

unfoldable pub InFlight : Option ℕ → Editor → Type 0
InFlight none e = Unit
InFlight (some u) e = (e.source ≡ some u) × (e.working ≡ true)

-- The form knows whether a crop is open; its picture, if it has one, is one that the editor has
-- cropped; and the URLs that the editor has made and not revoked are those that it shows.
pub record IsValid (p : Page) : Type 0 where
  pub cropping : p.form.cropping ≡ present p.editor.source
  pub picture : is_cropped p.form.image ≡ true
  pub urls : Owns p.editor
  pub in_flight : InFlight p.asked p.editor
