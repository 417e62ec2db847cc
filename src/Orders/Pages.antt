-- ===== src/Orders/Pages.antt =====
-- The list of orders as the pages of one request.
use radif.Prelude.{
  ◌==◌, if◌then◌else◌, ℕ, ◌+◌, ◌≡◌, refl, sym, ◌∙◌, ap, Bool, false, Option, none, some, List, [],
  ◌∷◌, ◌++◌, append-nil, append_assoc, arith,
}
use radif.Shared.Types.{OrderSummary}
use radif.Shared.Api.{fulfilled, rejected, abort_error, api_error, error, no_error}
use radif.Orders.Listing.{
  Page, State, init, start, stop, show_page, take_first, first_answered, more, take_more,
  more_answered,
}
use radif.Orders.Stale.{Event, started, more_asked, stopped, first_came, more_came, step, run}

-- What the list stands for: the number of the last request, and the pages that came for it.
pub record Log : Type 0 where
  pub number : ℕ
  pub pages : List Page

-- A request, or its end, forgets the pages or keeps them; an answer counts if it carries the number.
unfoldable pub log : Event → Log → Log
log started l = record { number = l.number + 1; pages = [] }
log more_asked l = l
log (stopped request) l = if request == l.number then record l { number = l.number + 1 } else l
log (first_came request aborted (fulfilled page)) l =
    if request == l.number then record l { pages = page ∷ [] } else l
log (first_came request aborted (rejected reason)) l = l
log (more_came request (fulfilled page)) l =
    if request == l.number then record l { pages = l.pages ++ page ∷ [] } else l
log (more_came request (rejected reason)) l = l

unfoldable pub log_all : List Event → Log → Log
log_all [] l = l
log_all (e ∷ es) l = log_all es (log e l)

unfoldable pub orders_of : List Page → List OrderSummary
orders_of [] = []
orders_of (page ∷ pages) = page.orders ++ orders_of pages

-- Whether the last page says that there are more, and the count that it gives.
pub more_of : Bool → List Page → Bool
more_of more [] = more
more_of more (page ∷ pages) = more_of page.has_more pages

pub count_of : Option ℕ → List Page → Option ℕ
count_of count [] = count
count_of count (page ∷ pages) = count_of (some page.active_count) pages

orders_of-append : (ps : List Page) (p : Page) → orders_of (ps ++ p ∷ []) ≡ orders_of ps ++ p.orders
unfolding orders_of
orders_of-append [] p = append-nil p.orders
orders_of-append (q ∷ ps) p =
    ap (λ os. q.orders ++ os) (orders_of-append ps p)
    ∙ sym (append_assoc q.orders (orders_of ps) p.orders)

more_of-append : (m : Bool) (ps : List Page) (p : Page) → more_of m (ps ++ p ∷ []) ≡ p.has_more
unfolding more_of
more_of-append m [] p = refl
more_of-append m (q ∷ ps) p = more_of-append q.has_more ps p

count_of-append :
    (c : Option ℕ) (ps : List Page) (p : Page) → count_of c (ps ++ p ∷ []) ≡ some p.active_count
unfolding count_of
count_of-append c [] p = refl
count_of-append c (q ∷ ps) p = count_of-append (some q.active_count) ps p

pub record Shows (s : State) (l : Log) : Type 0 where
  pub number : s.list_request ≡ l.number
  pub orders : s.orders ≡ orders_of l.pages
  pub has_more : s.has_more ≡ more_of false l.pages
  pub active_count : s.active_count ≡ count_of none l.pages

pub step-Shows : (e : Event) (s : State) (l : Log) → Shows s l → Shows (step e s) (log e l)
unfolding step log orders_of more_of count_of start stop show_page take_first first_answered more
    take_more more_answered
step-Shows started s l h = ground arith
step-Shows more_asked s l h = ground arith
step-Shows (stopped request) s l h = ground arith
step-Shows (first_came request aborted (fulfilled page)) s l h =
    ground (arith, append-nil page.orders)
step-Shows (first_came request aborted (rejected (abort_error m))) s l h = ground arith
step-Shows (first_came request aborted (rejected (api_error c m))) s l h = ground arith
step-Shows (first_came request aborted (rejected (error m))) s l h = ground arith
step-Shows (first_came request aborted (rejected no_error)) s l h = ground arith
step-Shows (more_came request (fulfilled page)) s l h = ground (
  arith,
  orders_of-append l.pages page,
  more_of-append false l.pages page,
  count_of-append none l.pages page,
)
step-Shows (more_came request (rejected reason)) s l h = ground arith

run-Shows_from :
    (es : List Event) (s : State) (l : Log) → Shows s l → Shows (run es s) (log_all es l)
unfolding run log_all
run-Shows_from [] s l h = h
run-Shows_from (e ∷ es) s l h = run-Shows_from es (step e s) (log e l) (step-Shows e s l h)

-- After any sequence of requests, ends of requests and answers in any order, the list shows the
-- orders of the pages that came for the last request, in the order in which they came, and the
-- mark for more orders and the count are those of the last of these pages.
pub run-Shows :
    (es : List Event) → Shows (run es init) (log_all es (record { number = 0; pages = [] }))
unfolding init orders_of more_of count_of
run-Shows es =
    run-Shows_from es init _
      (record { number = refl; orders = refl; has_more = refl; active_count = refl })
