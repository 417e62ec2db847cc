-- ===== src/Products/ImageEditor.antt =====
-- The editor of a product's picture (web/src/pages/ProductFormPage.tsx: cropImage, ImageEditor). The
-- picture's decoding and the canvas are the browser's: what they give is an argument. The place and
-- the zoom of the picture under the frame go to the cropper only, which tells the area that it cuts.
use radif.Prelude.{
  ◌==◌, if◌then◌else◌, present, keep, text, text_eq, Text, ℕ, ◌+◌, Bool, true, false, not, ◌||◌,
  Option, none, some, List, [], ◌∷◌,
}
use radif.Shared.Api.{File, Settled, fulfilled, rejected, error, no_error, message_or}
use radif.Shared.Messages.{image_type_invalid, crop_failed, webp_failed}

pub record Area : Type 0 where
  pub x : ℕ
  pub y : ℕ
  pub width : ℕ
  pub height : ℕ

-- What the browser gives for a source and an area: whether the picture loads, whether there is a 2D
-- context, and the size of the encoded picture, if it can encode one.
pub record Browser : Type 0 where
  pub loads : ℕ → Bool
  pub has_context : Bool
  pub encoded : ℕ → Area → Option ℕ

-- The type is the one that the code gives to the file; that of the blob, which the browser made, is left out.
unfoldable pub webp_file : Option ℕ → Settled File
webp_file none = rejected (error webp_failed)
webp_file (some size) =
    fulfilled (record { name = text "product.webp"; type = text "image/webp"; size = size })

-- `onerror` rejects with an event, which is no `Error`.
unfoldable pub crop_image : Browser → ℕ → Area → Settled File
unfolding webp_file
crop_image browser source area =
    if not (browser.loads source)
    then rejected no_error
    else if not browser.has_context
    then rejected (error crop_failed)
    else webp_file (browser.encoded source area)

-- An object URL is its number; `urls` are those that have been created and not revoked.
pub record State : Type 0 where
  pub source : Option ℕ
  pub area : Option Area
  pub working : Bool
  pub error : Text
  pub preview : Option ℕ
  pub urls : List ℕ
  pub next_url : ℕ

unfoldable pub init : State
init = record {
  source = none;
  area = none;
  working = false;
  error = [];
  preview = none;
  urls = [];
  next_url = 0;
}

-- `URL.createObjectURL` and `URL.revokeObjectURL`, the second also for a URL that may not be there.
unfoldable pub create_url : State → State
create_url s = record s { urls = s.next_url ∷ s.urls; next_url = s.next_url + 1 }

unfoldable pub revoke_url : Option ℕ → State → State
revoke_url none s = s
revoke_url (some url) s = record s { urls = keep (λ v. not (v == url)) s.urls }

unfoldable pub is_image_type : Text → Bool
is_image_type type =
    text_eq type (text "image/jpeg")
    || text_eq type (text "image/png")
    || text_eq type (text "image/webp")

unfoldable pub open_source : State → State
unfolding create_url revoke_url
open_source s = record (create_url (revoke_url s.source s)) {
  source = some s.next_url;
  area = none;
  error = [];
}

unfoldable pub choose : Option File → State → State
unfolding is_image_type open_source
choose none s = s
choose (some selected) s =
    if not (is_image_type selected.type)
    then record s { error = image_type_invalid }
    else open_source s

-- `onCropComplete`
unfoldable pub measure : Area → State → State
measure area s = record s { area = some area }

-- `finishCrop`, up to its call: the source and the area of the call, if it goes on.
unfoldable pub both : Option ℕ → Option Area → Option (ℕ × Area)
both (some source) (some area) = some (source, area)
both source area = none

unfoldable pub to_crop : State → Option (ℕ × Area)
unfolding both
to_crop s = both s.source s.area

unfoldable pub begin_crop : State → State
begin_crop s = record s { working = true; error = [] }

-- `finishCrop`, after its call for `source`: the new picture, if there is one.
unfoldable pub settle_crop : ℕ → Settled File → State → State × Option File
unfolding revoke_url
settle_crop source (fulfilled file) s =
    (record (revoke_url (some source) s) { source = none; working = false }, some file)
settle_crop source (rejected reason) s =
    (record s { error = message_or reason crop_failed; working = false }, none)

unfoldable pub cancel_crop : State → State
unfolding revoke_url
cancel_crop s = record (revoke_url s.source s) { source = none }

-- The buttons under the cropper.
unfoldable pub cancel_disabled : State → Bool
cancel_disabled s = s.working

unfoldable pub finish_disabled : State → Bool
finish_disabled s = s.working || not (present s.area)

-- The effect of the file, after the cleanup of the last one.
unfoldable pub show_preview : Option File → State → State
unfolding create_url revoke_url
show_preview none s = record (revoke_url s.preview s) { preview = none }
show_preview (some file) s = record (create_url (revoke_url s.preview s)) {
  preview = some s.next_url;
}

unfoldable pub same_url : Option ℕ → Option ℕ → Bool
same_url none none = true
same_url none (some _) = false
same_url (some _) none = false
same_url (some a) (some b) = a == b

-- The cleanup of the effect of the source, which was `old`: it runs where the source is another.
unfoldable pub source_left : Option ℕ → State → State
unfolding same_url revoke_url
source_left old s = if same_url old s.source then s else revoke_url old s
