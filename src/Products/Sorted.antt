-- ===== src/Products/Sorted.antt =====
-- The order of the products after a change.
use radif.Prelude.{
  if◌then◌else◌, ◌==◌, not, ◌≤◌, refl, sym, ap, subst, ◌∙◌, Bool-cases, ◌≡◌, inl, inr, true, false,
  List, [], ◌∷◌, map, arith,
}
use mathlib.Core.List.{Perm}
use mathlib.Core.List.Perm
use radif.Shared.Types.{Product}
use radif.Shared.Api.{fulfilled}
use radif.Products.List.{State, not_after, insert, sort_products, flip_active, settle_change}

-- Which of two products stands before the other: an active one before one that is not, and of two that
-- have the same mark the newer one, with the greater id.
pub data Precedes (p q : Product) : Type 0 where
  by_mark : p.active ≡ true → q.active ≡ false → Precedes p q
  by_age : p.active ≡ q.active → q.id ≤ p.id → Precedes p q

abbrev pub InOrder : Product → List Product → Type 0
InOrder p [] = Unit
InOrder p (q ∷ qs) = Precedes p q × InOrder p qs

abbrev pub IsSorted : List Product → Type 0
IsSorted [] = Unit
IsSorted (p ∷ ps) = InOrder p ps × IsSorted ps

not_after-Precedes : (a b : Product) → not_after a b ≡ true → Precedes a b
unfolding not_after
not_after-Precedes a b h = elim (Bool-cases a.active) [
  | inl x ↦ elim (Bool-cases b.active) [
    | inl y ↦ by_age (x ∙ sym y) (ground arith)
    | inr y ↦ by_mark x y
  ]
  | inr x ↦ elim (Bool-cases b.active) [
    | inl y ↦ absurd (ground arith)
    | inr y ↦ by_age (x ∙ sym y) (ground arith)
  ]
]

Precedes-trans : (a b c : Product) → Precedes a b → Precedes b c → Precedes a c
Precedes-trans a b c (by_mark x y) (by_mark z w) = by_mark x w
Precedes-trans a b c (by_mark x y) (by_age z w) = by_mark x (sym z ∙ y)
Precedes-trans a b c (by_age x y) (by_mark z w) = by_mark (x ∙ z) w
Precedes-trans a b c (by_age x y) (by_age z w) = by_age (x ∙ z) (omega arith)

not_after_total : (a b : Product) → not_after a b ≡ false → not_after b a ≡ true
unfolding not_after
not_after_total a b h = ground arith

InOrder-trans : (a b : Product) (ps : List Product) → Precedes a b → InOrder b ps → InOrder a ps
InOrder-trans a b [] h k = tt
InOrder-trans a b (p ∷ ps) h (k, ks) = (Precedes-trans a b p h k, InOrder-trans a b ps h ks)

InOrder-insert :
    (a p : Product) (ps : List Product) → Precedes a p → InOrder a ps → InOrder a (insert p ps)
unfolding insert
InOrder-insert a p [] h k = (h, tt)
InOrder-insert a p (q ∷ ps) h (k, ks) = elim (Bool-cases (not_after p q)) [
  | inl before ↦ rw before (h, (k, ks))
  | inr after ↦ rw after (k, InOrder-insert a p ps h ks)
]

insert-IsSorted : (p : Product) (ps : List Product) → IsSorted ps → IsSorted (insert p ps)
unfolding insert
insert-IsSorted p [] h = (tt, tt)
insert-IsSorted p (q ∷ ps) (k, h) = elim (Bool-cases (not_after p q)) [
  | inl before ↦
      let first = not_after-Precedes p q before in
      rw before ((first, InOrder-trans p q ps first k), (k, h))
  | inr after ↦ rw after (
    InOrder-insert q p ps (not_after-Precedes q p (not_after_total p q after)) k,
    insert-IsSorted p ps h,
  )
]

sort_products-IsSorted : (ps : List Product) → IsSorted (sort_products ps)
unfolding sort_products
sort_products-IsSorted [] = tt
sort_products-IsSorted (p ∷ ps) = insert-IsSorted p (sort_products ps) (sort_products-IsSorted ps)

insert-perm : (p : Product) (ps : List Product) → Perm (insert p ps) (p ∷ ps)
unfolding insert
insert-perm p [] = Perm.refl _
insert-perm p (q ∷ ps) = elim (Bool-cases (not_after p q)) [
  | inl before ↦ rw before (Perm.refl _)
  | inr after ↦ rw after (Perm.trans (Perm.cons q (insert-perm p ps)) (Perm.swap p q ps))
]

sort_products-perm : (ps : List Product) → Perm (sort_products ps) ps
unfolding sort_products
sort_products-perm [] = Perm.refl _
sort_products-perm (p ∷ ps) =
    Perm.trans (insert-perm p (sort_products ps)) (Perm.cons p (sort_products-perm ps))

-- The list with the mark of the products that have a product's id set to the opposite of that one's.
abbrev pub turned : Product → List Product → List Product
turned p [] = []
turned p (q ∷ qs) = (if q.id == p.id then record q { active = not p.active } else q) ∷ turned p qs

flip_active-turned : (p : Product) (qs : List Product) → map (flip_active p) qs ≡ turned p qs
unfolding flip_active
flip_active-turned p [] = refl
flip_active-turned p (q ∷ qs) = ap (λ rs. flip_active p q ∷ rs) (flip_active-turned p qs)

-- After the server has archived or activated a product, the list holds the same products, with the mark
-- of that product's id turned over from what it was when the button was drawn and all else as it was, in
-- this order: the active ones first, and in each part the ones with the greater ids first.
pub settle_change-IsSorted :
    (p : Product) (u : Unit {0}) (s : State)
    → IsSorted (settle_change p (fulfilled u) s).products
      × Perm (settle_change p (fulfilled u) s).products (turned p s.products)
unfolding settle_change
settle_change-IsSorted p u s = (
  sort_products-IsSorted (map (flip_active p) s.products),
  subst (Perm (sort_products (map (flip_active p) s.products))) (flip_active-turned p s.products)
      (sort_products-perm _),
)
