-- ===== src/Components/ReceiptPicker.antt =====
-- The picker of a receipt's picture, which is made smaller before it is handed on
-- (web/src/components.tsx: optimizeReceipt, ReceiptPicker). The picture's decoding and the canvas
-- are the browser's: what they give is an argument. Pixel sizes are computed exactly, where the
-- source computes with doubles.
pub mod Laws
pub mod View
use radif.Prelude.{
  leb, ◌==◌, if◌then◌else◌, text, text_eq, Text, ℕ, ◌+◌, ◌*◌, ◌/◌, min, max, Bool, true, false, not,
  ◌&&◌, ◌||◌, Option, none, some, List, [], ◌∷◌,
}
use radif.Shared.Api.{File, Settled, fulfilled, rejected, Thrown}

-- `Math.round(side * Math.min(1, 2000 / longest))`, at least 1
unfoldable pub scaled_side : ℕ → ℕ → ℕ
scaled_side longest side =
    if leb longest 2000 then max 1 side else max 1 ((2 * side * 2000 + longest) / (2 * longest))

pub record Canvas : Type 0 where
  pub width : ℕ
  pub height : ℕ

unfoldable pub canvas_size : ℕ → ℕ → Canvas
unfolding scaled_side
canvas_size width height =
    let longest = max width height in
    record { width = scaled_side longest width; height = scaled_side longest height }

-- A JPEG file that does not end with the end marker gets one before it is decoded.
unfoldable pub lacks_end_marker : Text → ℕ → ℕ → Bool
lacks_end_marker type before_last last =
    text_eq type (text "image/jpeg") && (not (before_last == 0xff) || not (last == 0xd9))

-- What the browser gives: the decoded picture's size, or what its decoder throws; whether there is
-- a 2D context; and the encoded picture's type and size, if it can encode one.
pub record Browser : Type 0 where
  pub image : Settled (ℕ × ℕ)
  pub has_context : Bool
  pub encoded : Canvas → Option (Text × ℕ)

unfoldable pub optimized : Browser → File → ℕ × ℕ → File
unfolding canvas_size
optimized browser file (width, height) =
    if browser.has_context
    then elim (browser.encoded (canvas_size width height)) [
      | none ↦ file
      | some (type, size) ↦ record { name = text "receipt.webp"; type = type; size = size }
    ]
    else file

unfoldable pub optimize_receipt : Browser → File → Settled File
unfolding optimized
optimize_receipt browser file = elim browser.image [
  | fulfilled size ↦ fulfilled (optimized browser file size)
  | rejected t ↦ rejected t
]

-- What the picker tells the form, in order.
pub data Told : Type 0 where
  change : Option File → Told
  busy : Bool → Told

unfoldable pub delivered : File → Settled File → File
delivered selected (fulfilled file) = file
delivered selected (rejected _) = selected

unfoldable pub choose : Browser → Option File → List Told
unfolding delivered optimize_receipt
choose browser none = []
choose browser (some selected) =
    change none
    ∷ busy true
    ∷ change (some (delivered selected (optimize_receipt browser selected)))
    ∷ busy false
    ∷ []
