-- ===== src/Orders/Empty.antt =====
-- When the list of orders is said to be empty, and where the button of that notice leads.
use radif.Prelude.{
  Bool-cases, is_empty, trim, ℕ, zero, suc, ◌≡◌, refl, inl, inr, Bool, true, false, not, ◌||◌, none,
  some, List, [], ◌∷◌, ◌++◌, arith,
}
use mathlib.Core.Bool.{false≢true}
use radif.Shared.Types.{OrderSummary}
use radif.Shared.Messages.{orders_not_loaded, more_orders_not_loaded}
use radif.Shared.Api.{fulfilled, rejected, abort_error, api_error, error, no_error, message_or}
use radif.Orders.Filters.{
  Params, View, active, archive, view_of, normalized_search, search_of, status_of, invalid_status,
  bad_status, set_view, clear_filters,
}
use radif.Orders.Listing.{
  Page, State, init, start, stop, show_page, take_first, first_answered, more, take_more,
  more_answered,
}
use radif.Orders.Stale.{Event, started, more_asked, stopped, first_came, more_came, step, run}
use radif.Orders.Pages.{Log, log, log_all, orders_of, Shows, step-Shows, run-Shows}
use radif.Orders.Rows.{filtered, shows_rows, shows_more_button, shows_empty, offer_of, accept}

-- What can happen to the list: more is asked for with the button, only an aborted call throws the
-- abort, and what is thrown has a message.
unfoldable pub Possible : Event → State → Type 0
Possible more_asked s = shows_more_button s ≡ true
Possible (first_came request aborted (rejected (abort_error m))) s = aborted ≡ true
Possible (first_came request aborted (rejected reason)) s =
    is_empty (message_or reason orders_not_loaded) ≡ false
Possible (more_came request (rejected reason)) s =
    is_empty (message_or reason more_orders_not_loaded) ≡ false
Possible e s = Unit

unfoldable pub AllPossible : List Event → State → Type 0
AllPossible [] s = Unit
AllPossible (e ∷ es) s = Possible e s × AllPossible es (step e s)

-- A list that does not load has an error or a page to show.
IsTold : State → Log → Type 0
IsTold s l = (s.loading || not (is_empty s.error) || not (is_empty l.pages)) ≡ true

orders-pages : (ps : List Page) → is_empty (orders_of ps) ≡ false → is_empty ps ≡ false
unfolding orders_of
orders-pages [] h = h
orders-pages (p ∷ ps) h = refl

is_empty-append_one : (ps : List Page) (p : Page) → is_empty (ps ++ p ∷ []) ≡ false
is_empty-append_one [] p = refl
is_empty-append_one (q ∷ ps) p = refl

is_empty-nil : (os : List OrderSummary) → is_empty os ≡ true → os ≡ []
is_empty-nil [] h = refl
is_empty-nil (o ∷ os) h = absurd (false≢true h)

more_asked-IsTold :
    (s : State) (l : Log) → Shows s l → shows_more_button s ≡ true → IsTold (more s) l
unfolding IsTold more shows_more_button shows_rows
more_asked-IsTold s l h e = ground (arith, orders-pages l.pages)

step-IsTold :
    (e : Event) (s : State) (l : Log)
    → Shows s l
    → Possible e s
    → IsTold s l
    → IsTold (step e s) (log e l)
unfolding IsTold Possible step log start stop show_page take_first first_answered take_more
    more_answered
step-IsTold started s l h p i = refl
step-IsTold more_asked s l h p i = more_asked-IsTold s l h p
step-IsTold (stopped request) s l h p i = ground arith
step-IsTold (first_came request aborted (fulfilled page)) s l h p i = ground arith
step-IsTold (first_came request aborted (rejected (abort_error m))) s l h p i = ground arith
step-IsTold (first_came request aborted (rejected (api_error c m))) s l h p i = ground arith
step-IsTold (first_came request aborted (rejected (error m))) s l h p i = ground arith
step-IsTold (first_came request aborted (rejected no_error)) s l h p i = ground arith
step-IsTold (more_came request (fulfilled page)) s l h p i =
    ground (arith, is_empty-append_one l.pages page)
step-IsTold (more_came request (rejected reason)) s l h p i = ground arith

run-IsTold :
    (es : List Event) (s : State) (l : Log)
    → Shows s l
    → AllPossible es s
    → IsTold s l
    → IsTold (run es s) (log_all es l)
unfolding run log_all AllPossible
run-IsTold [] s l h p i = i
run-IsTold (e ∷ es) s l h (p, ps) i =
    run-IsTold es (step e s) (log e l) (step-Shows e s l h) ps (step-IsTold e s l h p i)

told_empty :
    (s : State) (l : Log)
    → Shows s l
    → IsTold s l
    → shows_empty s ≡ true
    → (is_empty l.pages ≡ false) × (orders_of l.pages ≡ [])
unfolding IsTold shows_empty
told_empty s l h i e = ground (arith, is_empty-nil s.orders)

-- After any sequence of what can happen to it, the page says that there are no orders only if the
-- server has answered the last request, with pages that have no orders: never while it loads, after
-- an answer that failed, or on the answer of an earlier request.
pub shows_empty-run :
    (es : List Event)
    → AllPossible es init
    → shows_empty (run es init) ≡ true
    → let pages = (log_all es (record { number = 0; pages = [] })).pages in
      (is_empty pages ≡ false) × (orders_of pages ≡ [])
unfolding init IsTold run log_all
shows_empty-run es p e =
    told_empty (run es init) (log_all es (record { number = 0; pages = [] })) (run-Shows es)
      (run-IsTold es init (record { number = 0; pages = [] }) (run-Shows []) p refl) e

-- The addresses that the offers lead to while no list has orders, up to the form of a new order.
unfoldable pub follow : ℕ → ℕ → Params → Bool
follow zero archived p = false
follow (suc presses) archived p = elim (accept (offer_of (filtered p) (view_of p) archived) p) [
  | none ↦ true
  | some q ↦ follow presses archived q
]

follow_active :
    (n : ℕ) (p : Params) → filtered p ≡ false → view_of p ≡ active → follow (suc n) 0 p ≡ true
unfolding follow offer_of accept
follow_active n p f v = rw (f, v, follow) refl

filtered-set_view : (p : Params) → filtered p ≡ false → filtered (set_view active p) ≡ false
unfolding filtered set_view normalized_search search_of status_of invalid_status bad_status
filtered-set_view p h = ground arith

follow_unfiltered : (n : ℕ) (p : Params) → filtered p ≡ false → follow (suc (suc n)) 0 p ≡ true
unfolding follow offer_of accept view_of set_view
follow_unfiltered n p f = go (view_of p) refl
  where
    go : (v : View) → view_of p ≡ v → follow (suc (suc n)) 0 p ≡ true
    go active v = follow_active (suc n) p f v
    go archive v =
        rw (f, v, follow) (follow_active n (set_view active p) (filtered-set_view p f) refl)

filtered-clear_filters : (p : Params) → filtered (clear_filters p) ≡ false
unfolding filtered clear_filters normalized_search search_of status_of trim
filtered-clear_filters p = refl

-- A shop without orders gets from any address of the list to the form of a new order by at most
-- three presses of the button that the notice of an empty list offers.
pub follow_ends : (p : Params) → follow 3 0 p ≡ true
unfolding follow offer_of accept
follow_ends p = elim (Bool-cases (filtered p)) [
  | inl f ↦ rw (f, follow) (follow_unfiltered 0 (clear_filters p) (filtered-clear_filters p))
  | inr f ↦ follow_unfiltered 1 p f
]
