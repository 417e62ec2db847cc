-- ===== src/Products/View.antt =====
-- What the list of products draws (web/src/pages/ProductsPage.tsx).
pub mod Form
use radif.Prelude.{
  ◌==◌, if◌then◌else◌, Bool-cases, length, any, is_empty, text, decimal, Text, ℕ, ◌+◌, ◌-◌, ◌/◌,
  ◌≡◌, refl, ◌≢◌, inl, inr, Bool, true, false, not, ◌&&◌, Option, none, some, List, [], ◌∷◌, ◌++◌,
  arith,
}
use mathlib.Core.Bool.{false≢true}
use radif.Shared.Types.{Product}
use radif.Shared.Drawing.{
  Node, words, retry_notice, waiting, picture, link, button, Display, when, when_text, when_some,
}
use radif.Shared.Labels.{tomans}
use radif.Products.Labels.{
  active_of, products_count_label, make_product_label, new_product_label, archived_heading,
  edit_label, archive_label, activate_again_label,
}
use radif.Products.List.{State, not_after, active_count}
use radif.Products.Sorted.{InOrder, IsSorted}

pub data Handler : Type 0 where
  load : Handler
  change_active : Product → Handler

-- The heading of the archived products stands before a product that is archived, where it is the first
-- of the list or the one before it is active.
unfoldable pub starts_archive : Option Product → Product → Bool
starts_archive none product = not product.active
starts_archive (some before) product = not product.active && before.active

unfoldable pub is_changing : Option ℕ → Product → Bool
is_changing none product = false
is_changing (some id) product = id == product.id

unfoldable pub product_nodes : Display → Option ℕ → Product → List (Node Handler)
product_nodes d changing product =
    picture product.image_path
    ∷ words product.name
    ∷ (when_some product.short_description (λ t. words t ∷ [])
        ++ words (d.number product.default_price ++ tomans)
          ∷ link edit_label false (text "/products/" ++ (decimal product.id ++ text "/edit"))
          ∷ button (if product.active then archive_label else activate_again_label)
              (is_changing changing product) (change_active product)
          ∷ [])

unfoldable pub list_nodes : Display → Option ℕ → Option Product → List Product → List (Node Handler)
list_nodes d changing before [] = []
list_nodes d changing before (product ∷ products) =
    when (starts_archive before product) (words archived_heading ∷ [])
    ++ (product_nodes d changing product ++ list_nodes d changing (some product) products)

unfoldable pub view : Display → Text → State → List (Node Handler)
view d shop_name s =
    words shop_name
    ∷ (when (not s.loading) (
          words (
            d.number (active_count s.products)
            ++ (active_of ++ (d.number (length s.products) ++ products_count_label)))
          ∷ [])
        ++ link new_product_label false (text "/products/new")
          ∷ (when s.loading (waiting ∷ [])
              ++ (when_text s.error (λ e. retry_notice e load ∷ [])
                  ++ (when (not s.loading && is_empty s.error && is_empty s.products)
                        (link make_product_label false (text "/products/new") ∷ [])
                      ++ list_nodes d s.changing none s.products))))

-- How often the heading is drawn.
unfoldable pub headings : Option Product → List Product → ℕ
headings before [] = 0
headings before (product ∷ products) =
    (if starts_archive before product then 1 else 0) + headings (some product) products

all_archived :
    (p : Product) (ps : List Product)
    → p.active ≡ false
    → InOrder p ps
    → IsSorted ps
    → headings (some p) ps ≡ 0
unfolding headings starts_archive not_after
all_archived p [] h k s = refl
all_archived p (q ∷ ps) h (k, ks) (o, s) =
    let q_archived : q.active ≡ false = ground arith in
    ground (arith, all_archived q ps q_archived o s)

after_active :
    (p : Product) (ps : List Product)
    → p.active ≡ true
    → IsSorted ps
    → headings (some p) ps ≡ (if any (λ q. not q.active) ps then 1 else 0)
unfolding headings starts_archive
after_active p [] h s = refl
after_active p (q ∷ ps) h (o, s) = elim (Bool-cases q.active) [
  | inl a ↦ ground (arith, after_active q ps a s)
  | inr a ↦ ground (arith, all_archived q ps a o s)
]

-- In a list whose active products come first, and in each part the newest, the heading of the archived
-- products is drawn once where there is an archived product, and never where there is none.
pub headings-IsSorted :
    (ps : List Product)
    → IsSorted ps
    → headings none ps ≡ (if any (λ q. not q.active) ps then 1 else 0)
unfolding headings starts_archive
headings-IsSorted [] s = refl
headings-IsSorted (q ∷ ps) (o, s) = elim (Bool-cases q.active) [
  | inl a ↦ ground (arith, after_active q ps a s)
  | inr a ↦ ground (arith, all_archived q ps a o s)
]
