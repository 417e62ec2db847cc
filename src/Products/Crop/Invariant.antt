-- ===== src/Products/Crop/Invariant.antt =====
-- What holds of the form of a product and of its picture's editor after any sequence of events.
use radif.Prelude.{
  ◌==◌, find, ℕ, ◌≡◌, refl, sym, ◌∙◌, subst, Bool, true, false, Option, none, some, List, [], arith,
}
use radif.Shared.Api.{Settled, fulfilled, rejected, abort_error, api_error, error, no_error}
use radif.Shared.Types.{Product}
use radif.Products.Form.{
  Mode, State, type_price, type_name, type_description, set_load_error, show_found, found_in,
  loaded, settle,
}
use radif.Products.ImageEditor.{
  State as Editor, Area, crop_image, measure, to_crop, begin_crop, both, cancel_crop,
  cancel_disabled, source_left,
}
use radif.Products.Urls.{cancel_crop-Owns}
use radif.Products.Crop.{
  Page, blank, with_editor, Step, chosen, measured, crop_asked, crop_made, cancelled, restored,
  name_typed, price_typed, description_typed, product_came, refused, sent, answered, Reach, here,
  next, is_cropped, InFlight, IsValid,
}
use radif.Products.Crop.Laws.{
  blank-IsValid, crop_image-fits, no_work, with_editor-IsValid, same_source-IsValid, Owns-same,
  chosen-IsValid, hand-IsValid, settled-IsValid,
}

-- A change of the form that keeps the picture and what it knows of the crop.
form-IsValid :
    (form : State) (p : Page)
    → form.cropping ≡ p.form.cropping
    → form.image ≡ p.form.image
    → IsValid p
    → IsValid (record p { form = form })
form-IsValid form p c i v = record {
  cropping = c ∙ v.cropping;
  picture = subst (λ image. is_cropped image ≡ true) (sym i) v.picture;
  urls = v.urls;
  in_flight = v.in_flight;
}

show_found-keeps :
    (found : Option Product) (form : State)
    → ((show_found found form).cropping ≡ form.cropping)
      × ((show_found found form).image ≡ form.image)
unfolding show_found set_load_error
show_found-keeps none form = (refl, refl)
show_found-keeps (some product) form = (refl, refl)

loaded-keeps :
    (id : ℕ) (reply : Settled (List Product)) (aborted : Bool) (form : State)
    → ((loaded id reply aborted form).cropping ≡ form.cropping)
      × ((loaded id reply aborted form).image ≡ form.image)
unfolding loaded found_in show_found set_load_error
loaded-keeps id (fulfilled products) aborted form =
    show_found-keeps (find (λ (p : Product). p.id == id) products) form
loaded-keeps id (rejected (abort_error m)) aborted form = (refl, refl)
loaded-keeps id (rejected (api_error c m)) aborted form = (refl, refl)
loaded-keeps id (rejected (error m)) aborted form = (refl, refl)
loaded-keeps id (rejected no_error) aborted form = (refl, refl)

asked_source :
    (p : Page) (source : ℕ) → p.asked ≡ some source → IsValid p → p.editor.source ≡ some source
unfolding InFlight
asked_source p source h v = (subst (λ a. InFlight a p.editor) h v.in_flight).0

both-first :
    (a : Option ℕ) (b : Option Area) (source : ℕ) (area : Area)
    → both a b ≡ some (source, area)
    → a ≡ some source
unfolding both
both-first none b source area h = ground (arith, h)
both-first (some u) none source area h = ground (arith, h)
both-first (some u) (some c) source area h = ground (arith, h)

to_crop-source :
    (e : Editor) (source : ℕ) (area : Area)
    → to_crop e ≡ some (source, area)
    → e.source ≡ some source
unfolding to_crop
to_crop-source e source area h = both-first e.source e.area source area h

measured-InFlight :
    (a : Option ℕ) (area : Area) (e : Editor) → InFlight a e → InFlight a (measure area e)
unfolding InFlight measure
measured-InFlight none area e i = tt
measured-InFlight (some u) area e i = i

Step-IsValid : {p q : Page} → Step p q → IsValid p → IsValid q
unfolding with_editor measure begin_crop cancel_disabled InFlight type_price type_name
    type_description settle is_cropped
Step-IsValid (chosen p file h) v = chosen-IsValid p file h v
Step-IsValid (measured p area) v =
    same_source-IsValid (measure area p.editor) p p.asked refl v.picture (Owns-same v.urls)
      (measured-InFlight p.asked area p.editor v.in_flight)
Step-IsValid (crop_asked p source area d h) v =
    same_source-IsValid (begin_crop p.editor) p (some source) refl v.picture (Owns-same v.urls)
      (to_crop-source p.editor source area h, refl)
Step-IsValid (crop_made p browser source area h) v =
    settled-IsValid source (crop_image browser source area) p (asked_source p source h v)
      (crop_image-fits browser source area) v
Step-IsValid (cancelled p d) v =
    with_editor-IsValid (cancel_crop p.editor) p p.asked v.picture
      (cancel_crop-Owns p.editor v.urls)
      (no_work p.asked p.editor (source_left p.editor.source (cancel_crop p.editor)) v.in_flight d)
Step-IsValid (restored p) v = hand-IsValid none p refl v
Step-IsValid (name_typed p typed) v = form-IsValid (type_name typed p.form) p refl refl v
Step-IsValid (price_typed p typed) v = form-IsValid (type_price typed p.form) p refl refl v
Step-IsValid (description_typed p typed) v =
    form-IsValid (type_description typed p.form) p refl refl v
Step-IsValid (product_came p id reply aborted) v =
    let (c, i) = loaded-keeps id reply aborted p.form in
    form-IsValid (loaded id reply aborted p.form) p c i v
Step-IsValid (refused p message) v = form-IsValid (record p.form { error = message }) p refl refl v
Step-IsValid (sent p mode c f) v =
    form-IsValid (record p.form { pending = true; error = [] }) p refl refl v
Step-IsValid (answered p (fulfilled _)) v =
    form-IsValid (record p.form { pending = false }) p refl refl v
Step-IsValid (answered p (rejected reason)) v =
    form-IsValid (settle (rejected reason) p.form).0 p refl refl v

-- However the form of a product and its editor are used, and whenever the crops and the server's
-- answers come: the form knows whether a crop is open, so that it is not sent with one; its
-- picture, if it has one, is a WebP picture that the editor has cropped; and the object URLs that
-- have been made and not revoked are exactly those of the open source and of the preview.
pub blank-Reach-IsValid : (mode : Mode) {p : Page} → Reach (blank mode) p → IsValid p
blank-Reach-IsValid mode here = blank-IsValid mode
blank-Reach-IsValid mode (next r s) = Step-IsValid s (blank-Reach-IsValid mode r)
