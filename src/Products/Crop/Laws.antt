-- ===== src/Products/Crop/Laws.antt =====
-- The picture of a product is always one that the editor has cropped, and a form with an open crop
-- is not sent.
use radif.Prelude.{
  Bool-cases, present, text, text_eq, Text, ℕ, ◌≡◌, refl, sym, ◌∙◌, ap, subst, inl, inr, Bool, true,
  false, Option, none, some, List, arith,
}
use mathlib.Core.Bool.{false≢true}
use radif.Shared.Api.{File, Settled, fulfilled, rejected}
use radif.Shared.Messages.{image_type_invalid}
use radif.Products.Form.{Mode, init, pick_image, set_cropping}
use radif.Products.ImageEditor.{
  State as Editor, init as init_editor, Area, Browser, webp_file, crop_image, create_url,
  revoke_url, is_image_type, choose, open_source, settle_crop, cancel_crop, show_preview, same_url,
  source_left,
}
use radif.Products.Urls.{Owns, has, is_url, open_source-Owns, cancel_crop-Owns, show_preview-Owns}
use radif.Products.Crop.{
  Page, blank, with_editor, hand, with_picture, is_cropped, InFlight, IsValid,
}

init-Owns : Owns init_editor
unfolding init_editor has is_url
init-Owns = record { owned = λ v. refl; apart = λ v. refl; below = λ v h. absurd (false≢true h) }

pub blank-IsValid : (mode : Mode) → IsValid (blank mode)
unfolding blank init init_editor is_cropped InFlight
blank-IsValid mode = record { cropping = refl; picture = refl; urls = init-Owns; in_flight = tt }

-- A crop that does not fail gives a picture of the right kind.
pub fits : Settled File → Bool
fits (fulfilled file) = is_cropped (some file)
fits (rejected reason) = true

webp_file-fits : (size : Option ℕ) → fits (webp_file size) ≡ true
unfolding fits webp_file is_cropped text_eq text
webp_file-fits none = refl
webp_file-fits (some size) = refl

pub crop_image-fits :
    (b : Browser) (source : ℕ) (area : Area) → fits (crop_image b source area) ≡ true
unfolding crop_image fits
crop_image-fits b source area = ground (arith, webp_file-fits (b.encoded source area))

same_url_refl : (u : Option ℕ) → same_url u u ≡ true
unfolding same_url
same_url_refl none = refl
same_url_refl (some u) = ground arith

source_left-same : (e : Editor) → source_left e.source e ≡ e
unfolding source_left
source_left-same e = rw (same_url_refl e.source) refl

source_left-unchanged : (old : Option ℕ) (e : Editor) → e.source ≡ old → source_left old e ≡ e
source_left-unchanged old e h = subst (λ u. source_left u e ≡ e) h (source_left-same e)

revoke_url-source : (old : Option ℕ) (e : Editor) → (revoke_url old e).source ≡ e.source
unfolding revoke_url
revoke_url-source none e = refl
revoke_url-source (some u) e = refl

source_left-source : (old : Option ℕ) (e : Editor) → (source_left old e).source ≡ e.source
unfolding source_left
source_left-source old e = ground (arith, revoke_url-source old e)

pub no_crop : (a : Option ℕ) (e f : Editor) → InFlight a e → e.source ≡ none → InFlight a f
unfolding InFlight
no_crop none e f i h = tt
no_crop (some u) e f i h = ground (arith, i.0)

pub no_work : (a : Option ℕ) (e f : Editor) → InFlight a e → e.working ≡ false → InFlight a f
unfolding InFlight
no_work none e f i h = tt
no_work (some u) e f i h = ground (arith, i.1)

-- A handler of the editor leaves the form's picture, and a form that has been told is right.
pub with_editor-IsValid :
    (e : Editor) (p : Page) (asked : Option ℕ)
    → is_cropped p.form.image ≡ true
    → Owns (source_left p.editor.source e)
    → InFlight asked (source_left p.editor.source e)
    → IsValid (record (with_editor e p) { asked = asked })
unfolding with_editor set_cropping
with_editor-IsValid e p asked c o i = record {
  cropping = rw (source_left-source p.editor.source e) refl;
  picture = c;
  urls = o;
  in_flight = i;
}

-- The same for a handler that leaves the source.
pub same_source-IsValid :
    (e : Editor) (p : Page) (asked : Option ℕ)
    → e.source ≡ p.editor.source
    → is_cropped p.form.image ≡ true
    → Owns e
    → InFlight asked e
    → IsValid (record (with_editor e p) { asked = asked })
same_source-IsValid e p asked h c o i =
    let same = source_left-unchanged p.editor.source e h in
    with_editor-IsValid e p asked c (subst Owns (sym same) o) (subst (InFlight asked) (sym same) i)

-- The URLs do not depend on the rest of the editor.
pub Owns-same :
    {a b : Option Area} {w x : Bool} {m n : Text} {source preview : Option ℕ} {urls : List ℕ}
    {u : ℕ}
    → Owns (record {
      source = source;
      area = a;
      working = w;
      error = m;
      preview = preview;
      urls = urls;
      next_url = u;
    })
    → Owns (record {
      source = source;
      area = b;
      working = x;
      error = n;
      preview = preview;
      urls = urls;
      next_url = u;
    })
Owns-same o = record { owned = o.owned; apart = o.apart; below = o.below }

show_preview-source : (image : Option File) (e : Editor) → (show_preview image e).source ≡ e.source
unfolding show_preview create_url
show_preview-source none e = revoke_url-source e.preview e
show_preview-source (some f) e = revoke_url-source e.preview e

revoke_url-working : (old : Option ℕ) (e : Editor) → (revoke_url old e).working ≡ e.working
unfolding revoke_url
revoke_url-working none e = refl
revoke_url-working (some u) e = refl

show_preview-working :
    (image : Option File) (e : Editor) → (show_preview image e).working ≡ e.working
unfolding show_preview create_url
show_preview-working none e = revoke_url-working e.preview e
show_preview-working (some f) e = revoke_url-working e.preview e

pub chosen-IsValid :
    (p : Page) (file : Option File)
    → p.editor.source ≡ none
    → IsValid p
    → IsValid (with_editor (choose file p.editor) p)
unfolding choose with_editor
chosen-IsValid p none h v = same_source-IsValid p.editor p p.asked refl v.picture v.urls v.in_flight
chosen-IsValid p (some f) h v = elim (Bool-cases (is_image_type f.type)) [
  | inl image ↦ rw image (
      with_editor-IsValid (open_source p.editor) p p.asked v.picture
        (open_source-Owns p.editor v.urls)
        (no_crop p.asked p.editor (source_left p.editor.source (open_source p.editor)) v.in_flight
          h))
  | inr other ↦ rw other (
      same_source-IsValid (record p.editor { error = image_type_invalid }) p p.asked refl v.picture
        (Owns-same v.urls) (no_crop p.asked p.editor _ v.in_flight h))
]

show_preview-InFlight :
    (a : Option ℕ) (image : Option File) (e : Editor)
    → InFlight a e
    → InFlight a (show_preview image e)
unfolding InFlight
show_preview-InFlight none image e i = tt
show_preview-InFlight (some u) image e (h, w) =
    (show_preview-source image e ∙ h, show_preview-working image e ∙ w)

pub hand-IsValid :
    (image : Option File) (p : Page) → is_cropped image ≡ true → IsValid p → IsValid (hand image p)
unfolding hand pick_image
hand-IsValid image p c v = record {
  cropping = v.cropping ∙ ap present (sym (show_preview-source image p.editor));
  picture = c;
  urls = show_preview-Owns image p.editor v.urls;
  in_flight = show_preview-InFlight p.asked image p.editor v.in_flight;
}

cut-Owns :
    (source : ℕ) (e : Editor) (file : File)
    → e.source ≡ some source
    → Owns e
    → Owns (source_left e.source (settle_crop source (fulfilled file) e).0)
unfolding settle_crop revoke_url cancel_crop
cut-Owns source e file h o =
    let t : Editor = record e { working = false } in
    subst (λ u. Owns (source_left e.source (record (revoke_url u t) { source = none }))) h
      (cancel_crop-Owns t (Owns-same o))

pub settled-IsValid :
    (source : ℕ) (reply : Settled File) (p : Page)
    → p.editor.source ≡ some source
    → fits reply ≡ true
    → IsValid p
    → IsValid (with_picture (settle_crop source reply p.editor) p)
unfolding with_picture settle_crop fits hand with_editor InFlight
settled-IsValid source (fulfilled file) p h f v =
    let q : Page = record (with_editor (settle_crop source (fulfilled file) p.editor).0 p) {
      asked = none;
    } in
    hand-IsValid (some file) q f (
      with_editor-IsValid (settle_crop source (fulfilled file) p.editor).0 p none v.picture
        (cut-Owns source p.editor file h v.urls) tt)
settled-IsValid source (rejected reason) p h f v =
    same_source-IsValid (settle_crop source (rejected reason) p.editor).0 p none refl v.picture
      (Owns-same v.urls) tt
