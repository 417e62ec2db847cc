-- ===== src/Examples/Working.antt =====
-- The page of an order, the form of a product and the public page.
use radif.Prelude.{text, text_eq, ◌≡◌, refl, true, false, none, some, []}
use radif.Shared.Api.{fulfilled}
use radif.AdminOrder.State as Order
use radif.AdminOrder.Fields.{pick_date, edit}
use radif.AdminOrder.Calls as Calls
use radif.Products.Form.{create}
use radif.Products.ImageEditor as Editor
use radif.Products.Crop as Crop
use radif.Products.Crop.Invariant.{blank-Reach-IsValid}
use radif.Examples.Data.{admin_order, picture}

abbrev first_page : Calls.Page
first_page = record { state = Order.init; calls = [] }

abbrev shown_page : Calls.Page
shown_page = record first_page { state = Order.loaded (fulfilled admin_order) false Order.init }

abbrev dated_page : Calls.Page
dated_page = record shown_page { state = edit (pick_date (text "2027-01-01")) shown_page.state }

abbrev area : Editor.Area
area = record { x = 0; y = 0; width = 600; height = 600 }

abbrev browser : Editor.Browser
browser = record { loads = λ _. true; has_context = true; encoded = λ _ _. some 90000 }

abbrev blank_page : Crop.Page
blank_page = Crop.blank create

abbrev opened_page : Crop.Page
opened_page = Crop.with_editor (Editor.choose (some picture) blank_page.editor) blank_page

abbrev measured_page : Crop.Page
measured_page = Crop.with_editor (Editor.measure area opened_page.editor) opened_page

abbrev asked_page : Crop.Page
asked_page = record (Crop.with_editor (Editor.begin_crop measured_page.editor) measured_page) {
  asked = some 0;
}

abbrev cut_page : Crop.Page
cut_page =
    Crop.with_picture (Editor.settle_crop 0 (Editor.crop_image browser 0 area) asked_page.editor)
      asked_page

no_source : blank_page.editor.source ≡ none
unfolding Crop.blank Editor.init
no_source = refl

finish_enabled : Editor.finish_disabled measured_page.editor ≡ false
unfolding Crop.blank Editor.init Editor.finish_disabled Crop.with_editor Editor.source_left
    Editor.choose text_eq text Editor.measure
finish_enabled = refl

crop_of : Editor.to_crop measured_page.editor ≡ some (0, area)
unfolding Crop.blank Editor.init Editor.to_crop Crop.with_editor Editor.source_left Editor.choose
    text_eq text Editor.measure
crop_of = refl

blank-Reach-IsValid_example : Crop.IsValid cut_page
blank-Reach-IsValid_example = blank-Reach-IsValid create (
    Crop.next
      (Crop.next
        (Crop.next (Crop.next Crop.here (Crop.chosen blank_page (some picture) no_source))
          (Crop.measured opened_page area))
        (Crop.crop_asked measured_page 0 area finish_enabled crop_of))
      (Crop.crop_made asked_page browser 0 area refl))
