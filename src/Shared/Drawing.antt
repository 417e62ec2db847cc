-- ===== src/Shared/Drawing.antt =====
-- What a page draws (the elements that the pages of web/src/pages and web/src/components.tsx return):
-- the values and notices that are told, in their order, and the controls with their handlers. The
-- elements are listed without their nesting, and without the fixed texts around them.
use radif.Prelude.{
  if◌then◌else◌, text, Text, ℕ, zero, suc, ◌≡◌, refl, ◌∙◌, ap, Bool, true, false, not, ◌&&◌, ◌||◌,
  Option, none, some, List, [], ◌∷◌, ◌++◌, arith,
}

-- An option of a choice, with what choosing it does.
pub record Choice (A : Type 0) : Type 0 where
  pub value : Text
  pub label : Text
  pub disabled : Bool
  pub picked : A

-- `A` stands for the page's handlers.
pub data Node (A : Type 0) : Type 0 where
  words : Text → Node A
  notice : Text → Node A
  -- a notice whose button tries again
  retry_notice : Text → A → Node A
  waiting : Node A
  picture : Text → Node A
  -- the label, whether it is disabled, and the address
  link : Text → Bool → Text → Node A
  -- the same of a link that is marked as disabled, by `aria-disabled` and `pointer-events-none`, and not
  -- kept from being followed
  marked_link : Text → Bool → Text → Node A
  -- the value that is copied, and the label
  copy_button : Text → Text → Node A
  -- the label, `disabled`, and the handler
  button : Text → Bool → A → Node A
  -- the value, and the handler of a change
  field : Text → (Text → A) → Node A
  checkbox : Bool → (Bool → A) → Node A
  -- `disabled`, the options, and the value that is chosen
  choice : Bool → List (Choice A) → Text → Node A

-- The formats of the browser: `persianNumber`, `persianDate` and `persianDateTime`.
pub record Display : Type 0 where
  pub number : ℕ → Text
  pub date : Text → Text
  pub date_time : Text → Text

-- JavaScript's `condition && element`
abbrev pub when {ℓ} : {A : Type ℓ} → Bool → List A → List A
when true nodes = nodes
when false nodes = []

-- `text && element`, of a text that is drawn in the element
abbrev pub when_text : {A : Type 0} → Text → (Text → List (Node A)) → List (Node A)
when_text [] draw = []
when_text (c ∷ t) draw = draw (c ∷ t)

abbrev pub when_some : {A : Type 0} → Option Text → (Text → List (Node A)) → List (Node A)
when_some none draw = []
when_some (some t) draw = when_text t draw

-- The same of a number, of which 0 is drawn.
abbrev pub when_number : {A : Type 0} → Option ℕ → (ℕ → List (Node A)) → List (Node A)
when_number none draw = []
when_number (some zero) draw = words (text "0") ∷ []
when_number (some (suc n)) draw = draw (suc n)

abbrev pub flat_map {ℓ κ} : {A : Type ℓ} {B : Type κ} → (A → List B) → List A → List B
flat_map f [] = []
flat_map f (x ∷ xs) = f x ++ flat_map f xs

-- The addresses of the links that can be followed, by a pointer or by the keyboard, which a mark does not
-- keep from a link.
unfoldable pub ways_out : {A : Type 0} → Bool → List (Node A) → List Text
ways_out keyboard [] = []
ways_out keyboard (link label disabled address ∷ nodes) =
    if disabled then ways_out keyboard nodes else address ∷ ways_out keyboard nodes
ways_out keyboard (marked_link label marked address ∷ nodes) =
    if marked && not keyboard then ways_out keyboard nodes else address ∷ ways_out keyboard nodes
ways_out keyboard (_ ∷ nodes) = ways_out keyboard nodes

pub ways_out-append :
    {A : Type 0} (k : Bool) (xs ys : List (Node A))
    → ways_out k (xs ++ ys) ≡ ways_out k xs ++ ways_out k ys
unfolding ways_out
ways_out-append k [] ys = refl
ways_out-append k (link label disabled address ∷ xs) ys = ground (arith, ways_out-append k xs ys)
ways_out-append k (marked_link label marked address ∷ xs) ys =
    ground (arith, ways_out-append k xs ys)
ways_out-append k (_ ∷ xs) ys = ways_out-append k xs ys

pub ways_out-when :
    {A : Type 0} (k : Bool) (c : Bool) (xs : List (Node A))
    → ways_out k xs ≡ []
    → ways_out k (when c xs) ≡ []
unfolding ways_out
ways_out-when k true xs h = h
ways_out-when k false xs h = refl

pub ways_out-when_text :
    {A : Type 0} (k : Bool) (t : Text) (draw : Text → List (Node A))
    → ((u : Text) → ways_out k (draw u) ≡ [])
    → ways_out k (when_text t draw) ≡ []
unfolding ways_out
ways_out-when_text k [] draw h = refl
ways_out-when_text k (c ∷ t) draw h = h (c ∷ t)

pub ways_out-when_some :
    {A : Type 0} (k : Bool) (t : Option Text) (draw : Text → List (Node A))
    → ((u : Text) → ways_out k (draw u) ≡ [])
    → ways_out k (when_some t draw) ≡ []
unfolding ways_out
ways_out-when_some k none draw h = refl
ways_out-when_some k (some t) draw h = ways_out-when_text k t draw h

pub ways_out-flat_map {κ} :
    {A : Type 0} {B : Type κ} (k : Bool) (f : B → List (Node A)) (xs : List B)
    → ((x : B) → ways_out k (f x) ≡ [])
    → ways_out k (flat_map f xs) ≡ []
unfolding ways_out
ways_out-flat_map k f [] h = refl
ways_out-flat_map k f (x ∷ xs) h =
    ways_out-append k (f x) (flat_map f xs)
    ∙ ap (λ b. b ++ ways_out k (flat_map f xs)) (h x)
    ∙ ways_out-flat_map k f xs h

-- Whether a button can be pressed whose handler passes a test.
module _ {A : Type 0} (p : A → Bool) where
  unfoldable pub offers : List (Node A) → Bool
  offers [] = false
  offers (button label disabled a ∷ nodes) = (not disabled && p a) || offers nodes
  offers (retry_notice message a ∷ nodes) = p a || offers nodes
  offers (_ ∷ nodes) = offers nodes

  pub offers-append : (xs ys : List (Node A)) → offers (xs ++ ys) ≡ (offers xs || offers ys)
  unfolding offers
  offers-append [] ys = refl
  offers-append (button label disabled a ∷ xs) ys = ground (arith, offers-append xs ys)
  offers-append (retry_notice message a ∷ xs) ys = ground (arith, offers-append xs ys)
  offers-append (_ ∷ xs) ys = offers-append xs ys

  pub offers-when : (c : Bool) (xs : List (Node A)) → offers (when c xs) ≡ (c && offers xs)
  unfolding offers
  offers-when true xs = refl
  offers-when false xs = refl

  pub offers-when_text :
      (t : Text) (draw : Text → List (Node A))
      → ((u : Text) → offers (draw u) ≡ false)
      → offers (when_text t draw) ≡ false
  unfolding offers
  offers-when_text [] draw h = refl
  offers-when_text (c ∷ t) draw h = h (c ∷ t)

  pub offers-when_some :
      (t : Option Text) (draw : Text → List (Node A))
      → ((u : Text) → offers (draw u) ≡ false)
      → offers (when_some t draw) ≡ false
  unfolding offers
  offers-when_some none draw h = refl
  offers-when_some (some t) draw h = offers-when_text t draw h

  pub offers-when_number :
      (n : Option ℕ) (draw : ℕ → List (Node A))
      → ((k : ℕ) → offers (draw k) ≡ false)
      → offers (when_number n draw) ≡ false
  unfolding offers
  offers-when_number none draw h = refl
  offers-when_number (some zero) draw h = refl
  offers-when_number (some (suc k)) draw h = h (suc k)

  pub offers-flat_map {κ} :
      {B : Type κ} (f : B → List (Node A)) (xs : List B)
      → ((x : B) → offers (f x) ≡ false)
      → offers (flat_map f xs) ≡ false
  unfolding offers
  offers-flat_map f [] h = refl
  offers-flat_map f (x ∷ xs) h =
      offers-append (f x) (flat_map f xs)
      ∙ ap (λ b. b || offers (flat_map f xs)) (h x)
      ∙ offers-flat_map f xs h

pub ruleset offer_laws = (offers-append, offers-when)
