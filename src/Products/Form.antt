-- ===== src/Products/Form.antt =====
-- The form of a product (web/src/pages/ProductFormPage.tsx). The editor of its picture hands a file
-- to `pick_image` and tells by `set_cropping` whether a crop is open.
use radif.Prelude.{
  leb, ◌==◌, if◌then◌else◌, present, or_else, find, is_empty, text, trim, decimal, number, Text, ℕ,
  String, Bool, true, false, not, ◌||◌, Option, none, some, List, [], ◌∷◌, ◌++◌,
}
use radif.Shared.Types.{Product}
use radif.Shared.Digits.{normalize_digits}
use radif.Shared.Messages.{
  product_not_found, product_not_loaded, crop_unfinished, product_fields_invalid, product_not_saved,
}
use radif.Shared.Api.{
  Effect, call, navigate, File, Value, str, file, post, patch, form, Request, Settled, fulfilled,
  rejected, Thrown, api_error, abort_error, message_or,
}

-- `edit` has the id in the address, as `Number` reads it and as it stands there.
pub data Mode : Type 0 where
  create : Mode
  edit : ℕ → Text → Mode

pub record State : Type 0 where
  pub product : Option Product
  pub name : Text
  pub price : Text
  pub description : Text
  pub image : Option File
  pub loading : Bool
  pub pending : Bool
  pub cropping : Bool
  pub error : Text

unfoldable pub is_edit : Mode → Bool
is_edit create = false
is_edit (edit _ _) = true

unfoldable pub init : Mode → State
init mode = record {
  product = none;
  name = [];
  price = [];
  description = [];
  image = none;
  loading = is_edit mode;
  pending = false;
  cropping = false;
  error = [];
}

unfoldable pub set_load_error : Thrown → State → State
set_load_error (abort_error _) s = s
set_load_error reason s = record s { error = message_or reason product_not_loaded }

unfoldable pub show_found : Option Product → State → State
show_found none s = set_load_error (api_error 404 product_not_found) s
show_found (some p) s = record s {
  product = some p;
  name = p.name;
  price = decimal p.default_price;
  description = or_else p.short_description [];
}

unfoldable pub found_in : ℕ → Settled (List Product) → State → State
found_in id (fulfilled products) s = show_found (find (λ (p : Product). p.id == id) products) s
found_in id (rejected reason) s = set_load_error reason s

-- The answer of the effect that loads the product to edit.
unfoldable pub loaded : ℕ → Settled (List Product) → Bool → State → State
loaded id reply aborted s =
    let t = found_in id reply s in record t { loading = if aborted then t.loading else false }

unfoldable pub type_name : Text → State → State
type_name typed s = record s { name = typed }

unfoldable pub type_description : Text → State → State
type_description typed s = record s { description = typed }

unfoldable pub type_price : Text → State → State
type_price typed s = record s { price = normalize_digits typed }

unfoldable pub pick_image : Option File → State → State
pick_image image s = record s { image = image }

unfoldable pub set_cropping : Bool → State → State
set_cropping cropping s = record s { cropping = cropping }

unfoldable pub needs_image : Mode → State → Bool
needs_image create s = not (present s.image)
needs_image (edit _ _) s = false

unfoldable pub fields_invalid : Mode → State → Bool
fields_invalid mode s =
    is_empty (trim s.name)
    || not (leb (number s.price) 9007199254740991)
    || number s.price == 0
    || needs_image mode s

unfoldable pub image_part : Option File → List (String × Value)
image_part none = []
image_part (some image) = ("image", file image) ∷ []

unfoldable pub products_path : ℕ → Text
products_path shop_id = text "/api/shops/" ++ decimal shop_id ++ text "/products"

unfoldable pub product_form : State → List (String × Value)
product_form s =
    ("name", str (trim s.name))
    ∷ ("defaultPrice", str (decimal (number s.price)))
    ∷ ("shortDescription", str (trim s.description))
    ∷ image_part s.image

unfoldable pub save_request : ℕ → Mode → State → Request
save_request shop_id create s = record {
  method = post;
  path = products_path shop_id;
  body = form (product_form s);
}
save_request shop_id (edit _ id) s = record {
  method = patch;
  path = products_path shop_id ++ b'/' ∷ id;
  body = form (product_form s);
}

unfoldable pub settle : Settled (Unit {0}) → State → State × List Effect
settle (fulfilled _) s = (record s { pending = false }, navigate (text "/products") ∷ [])
settle (rejected reason) s =
    (record s { error = message_or reason product_not_saved; pending = false }, [])

unfoldable pub submit :
    ℕ → Mode → Settled (Unit {0}) → (State → State) → State → State × List Effect
submit shop_id mode reply meanwhile s =
    if s.cropping
    then (record s { error = crop_unfinished }, [])
    else if fields_invalid mode s
    then (record s { error = product_fields_invalid }, [])
    else (let (t, effects) = settle reply (meanwhile (record s { pending = true; error = [] })) in
        (t, call (save_request shop_id mode s) ∷ effects))

unfoldable pub submit_disabled : Mode → State → Bool
submit_disabled mode s =
    s.pending || s.cropping || is_empty (trim s.name) || is_empty s.price || needs_image mode s
