-- ===== src/Components/ReceiptPicker/Laws.antt =====
-- The size of the canvas, and what the form is told.
use radif.Prelude.{
  take, ℕ, ◌+◌, ◌*◌, ◌/◌, ◌≤◌, ◌<◌, max, ◌≡◌, refl, Bool, true, false, Option, none, some, List, [],
  ◌∷◌, arith,
}
use native.Mathlib.Nat.{div-lt_iff_lt-mul}
use radif.Shared.Api.{File}
use radif.Components.ReceiptPicker.{scaled_side, canvas_size, Browser, delivered, optimize_receipt}
use radif.Components.ReceiptPicker.{Told, change, busy, choose}

quotient_bound :
    (longest side : ℕ)
    → side ≤ longest
    → 0 < longest
    → (2 * side * 2000 + longest) / (2 * longest) < 2001
quotient_bound longest side h p = (div-lt_iff_lt-mul (omega arith)).1 (omega arith)

scaled_side_bounds :
    (longest side : ℕ)
    → side ≤ longest
    → (1 ≤ scaled_side longest side) × (scaled_side longest side ≤ 2000)
unfolding scaled_side
scaled_side_bounds longest side h = ground (arith, quotient_bound longest side)

-- The canvas for a picture of any size has no side below 1 or above 2000.
pub canvas_size_bounds :
    (w h : ℕ)
    → let c = canvas_size w h in
      (1 ≤ c.width) × (c.width ≤ 2000) × (1 ≤ c.height) × (c.height ≤ 2000)
unfolding canvas_size
canvas_size_bounds w h =
    omega (arith, scaled_side_bounds (max w h) w, scaled_side_bounds (max w h) h)

-- The last file that the form is told of, and whether it is told last that the picker is busy.
abbrev pub told_file : Option File → List Told → Option File
told_file f [] = f
told_file f (change g ∷ ts) = told_file g ts
told_file f (busy b ∷ ts) = told_file f ts

abbrev pub told_busy : Bool → List Told → Bool
told_busy b [] = b
told_busy b (change g ∷ ts) = told_busy b ts
told_busy b (busy c ∷ ts) = told_busy c ts

-- Whatever the browser does with the picture, the choice of a file ends: the form holds a file
-- again (the made one, or the chosen one where none could be made) and is no longer told to wait.
-- In between it held none and was told to wait.
pub choose_ends :
    (browser : Browser) (selected : File) (before : Option File) (waiting : Bool)
    → (told_file before (choose browser (some selected))
        ≡ some (delivered selected (optimize_receipt browser selected)))
      × (told_busy waiting (choose browser (some selected)) ≡ false)
      × (told_file before (take 2 (choose browser (some selected))) ≡ none)
      × (told_busy waiting (take 2 (choose browser (some selected))) ≡ true)
unfolding choose
choose_ends browser selected before waiting = (refl, refl, refl, refl)
