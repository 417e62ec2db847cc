-- ===== src/Shared/Handled.antt =====
-- What the controls of a drawn page can set off (the handlers of the elements that the pages of
-- web/src/pages return).
use radif.Prelude.{All, Text, ◌≡◌, Bool, true, false, List, [], ◌∷◌, ◌++◌}
use radif.Shared.Drawing.{
  Node, words, notice, retry_notice, waiting, picture, link, marked_link, copy_button, button,
  field, checkbox, choice, Choice, when, when_text, flat_map,
}

-- That a predicate holds of every handler of a control that is not disabled, whatever is typed into it.
pub data Handles {κ} {A : Type 0} (P : A → Type κ) : List (Node A) → Type κ where
  no_nodes : Handles P []
  on_words : {t : Text} {xs : List (Node A)} → Handles P xs → Handles P (words t ∷ xs)
  on_notice : {t : Text} {xs : List (Node A)} → Handles P xs → Handles P (notice t ∷ xs)
  on_retry_notice :
      {t : Text} {a : A} {xs : List (Node A)}
      → P a
      → Handles P xs
      → Handles P (retry_notice t a ∷ xs)
  on_waiting : {xs : List (Node A)} → Handles P xs → Handles P (waiting ∷ xs)
  on_picture : {t : Text} {xs : List (Node A)} → Handles P xs → Handles P (picture t ∷ xs)
  on_link :
      {t u : Text} {disabled : Bool} {xs : List (Node A)}
      → Handles P xs
      → Handles P (link t disabled u ∷ xs)
  on_marked_link :
      {t u : Text} {marked : Bool} {xs : List (Node A)}
      → Handles P xs
      → Handles P (marked_link t marked u ∷ xs)
  on_copy_button :
      {t u : Text} {xs : List (Node A)} → Handles P xs → Handles P (copy_button t u ∷ xs)
  on_button :
      {t : Text} {disabled : Bool} {a : A} {xs : List (Node A)}
      → (disabled ≡ false → P a)
      → Handles P xs
      → Handles P (button t disabled a ∷ xs)
  on_field :
      {t : Text} {a : Text → A} {xs : List (Node A)}
      → ((u : Text) → P (a u))
      → Handles P xs
      → Handles P (field t a ∷ xs)
  on_checkbox :
      {value : Bool} {a : Bool → A} {xs : List (Node A)}
      → ((b : Bool) → P (a b))
      → Handles P xs
      → Handles P (checkbox value a ∷ xs)
  on_choice :
      {disabled : Bool} {options : List (Choice A)} {t : Text} {xs : List (Node A)}
      → (disabled ≡ false → All (λ (o : Choice A). o.disabled ≡ false → P o.picked) options)
      → Handles P xs
      → Handles P (choice disabled options t ∷ xs)

pub Handles-append {κ} :
    {A : Type 0} {P : A → Type κ} {xs ys : List (Node A)}
    → Handles P xs
    → Handles P ys
    → Handles P (xs ++ ys)
Handles-append no_nodes k = k
Handles-append (on_words h) k = on_words (Handles-append h k)
Handles-append (on_notice h) k = on_notice (Handles-append h k)
Handles-append (on_retry_notice p h) k = on_retry_notice p (Handles-append h k)
Handles-append (on_waiting h) k = on_waiting (Handles-append h k)
Handles-append (on_picture h) k = on_picture (Handles-append h k)
Handles-append (on_link h) k = on_link (Handles-append h k)
Handles-append (on_marked_link h) k = on_marked_link (Handles-append h k)
Handles-append (on_copy_button h) k = on_copy_button (Handles-append h k)
Handles-append (on_button p h) k = on_button p (Handles-append h k)
Handles-append (on_field p h) k = on_field p (Handles-append h k)
Handles-append (on_checkbox p h) k = on_checkbox p (Handles-append h k)
Handles-append (on_choice p h) k = on_choice p (Handles-append h k)

module _ {κ} {A : Type 0} {P : A → Type κ} where
  pub Handles-when : (c : Bool) {xs : List (Node A)} → Handles P xs → Handles P (when c xs)
  Handles-when true h = h
  Handles-when false h = no_nodes

  pub Handles-when_text :
      (t : Text) (draw : Text → List (Node A))
      → ((u : Text) → Handles P (draw u))
      → Handles P (when_text t draw)
  Handles-when_text [] draw h = no_nodes
  Handles-when_text (c ∷ t) draw h = h (c ∷ t)

  pub Handles-flat_map {ι} :
      {B : Type ι} (f : B → List (Node A)) (xs : List B)
      → ((x : B) → Handles P (f x))
      → Handles P (flat_map f xs)
  Handles-flat_map f [] h = no_nodes
  Handles-flat_map f (x ∷ xs) h = Handles-append (h x) (Handles-flat_map f xs h)

module _ {κ ι} {A : Type 0} {P : A → Type κ} {Q : A → Type ι} (f : (a : A) → P a → Q a) where
  pub All-map :
      (os : List (Choice A))
      → All (λ (o : Choice A). o.disabled ≡ false → P o.picked) os
      → All (λ (o : Choice A). o.disabled ≡ false → Q o.picked) os
  All-map [] h = tt
  All-map (o ∷ os) (p, h) = (λ e. f o.picked (p e), All-map os h)

  pub Handles-map : {xs : List (Node A)} → Handles P xs → Handles Q xs
  Handles-map no_nodes = no_nodes
  Handles-map (on_words h) = on_words (Handles-map h)
  Handles-map (on_notice h) = on_notice (Handles-map h)
  Handles-map (on_retry_notice p h) = on_retry_notice (f _ p) (Handles-map h)
  Handles-map (on_waiting h) = on_waiting (Handles-map h)
  Handles-map (on_picture h) = on_picture (Handles-map h)
  Handles-map (on_link h) = on_link (Handles-map h)
  Handles-map (on_marked_link h) = on_marked_link (Handles-map h)
  Handles-map (on_copy_button h) = on_copy_button (Handles-map h)
  Handles-map (on_button p h) = on_button (λ e. f _ (p e)) (Handles-map h)
  Handles-map (on_field p h) = on_field (λ u. f _ (p u)) (Handles-map h)
  Handles-map (on_checkbox p h) = on_checkbox (λ b. f _ (p b)) (Handles-map h)
  Handles-map (on_choice {options = os} p h) = on_choice (λ e. All-map os (p e)) (Handles-map h)
