-- ===== src/Orders/Stale.antt =====
-- Answers that come late.
use radif.Prelude.{◌==◌, ℕ, ◌≤◌, ◌<◌, ◌≡◌, refl, Bool, false, some, List, [], ◌∷◌, ◌++◌, arith}
use radif.Shared.Api.{Settled, fulfilled, rejected, abort_error, api_error, error, no_error}
use radif.Orders.Listing.{
  Page, State, start, stop, show_page, take_first, first_answered, more, take_more, more_answered,
}

-- Everything that happens to the list.
pub data Event : Type 0 where
  started more_asked : Event
  stopped : ℕ → Event
  first_came : ℕ → Bool → Settled Page → Event
  more_came : ℕ → Settled Page → Event

unfoldable pub step : Event → State → State
step started s = start s
step more_asked s = more s
step (stopped request) s = stop request s
step (first_came request aborted reply) s = first_answered request aborted reply s
step (more_came request reply) s = more_answered request reply s

unfoldable pub run : List Event → State → State
run [] s = s
run (e ∷ es) s = run es (step e s)

ne_test : (a b : ℕ) → a < b → (a == b) ≡ false
ne_test a b h = ground arith

take_first_stale :
    (n : ℕ) (reply : Settled Page) (s : State) → n < s.list_request → take_first n reply s ≡ s
unfolding take_first
take_first_stale n (fulfilled page) s h = rw (ne_test n s.list_request h)
take_first_stale n (rejected (abort_error m)) s h = refl
take_first_stale n (rejected (api_error c m)) s h = rw (ne_test n s.list_request h)
take_first_stale n (rejected (error m)) s h = rw (ne_test n s.list_request h)
take_first_stale n (rejected no_error) s h = rw (ne_test n s.list_request h)

take_more_stale :
    (n : ℕ) (reply : Settled Page) (s : State) → n < s.list_request → take_more n reply s ≡ s
unfolding take_more
take_more_stale n (fulfilled page) s h = rw (ne_test n s.list_request h)
take_more_stale n (rejected reason) s h = rw (ne_test n s.list_request h)

first_stale :
    (n : ℕ) (aborted : Bool) (reply : Settled Page) (s : State)
    → n < s.list_request
    → first_answered n aborted reply s ≡ s
unfolding first_answered
first_stale n aborted reply s h =
    rw (take_first_stale n reply s h) (rw (ne_test n s.list_request h) (ground arith))

more_stale :
    (n : ℕ) (reply : Settled Page) (s : State) → n < s.list_request → more_answered n reply s ≡ s
unfolding more_answered
more_stale n reply s h = rw (take_more_stale n reply s h) (rw (ne_test n s.list_request h))

step_grows : (e : Event) (s : State) → s.list_request ≤ (step e s).list_request
unfolding step start more stop first_answered take_first show_page more_answered take_more
step_grows started s = omega arith
step_grows more_asked s = omega arith
step_grows (stopped request) s = ground arith
step_grows (first_came request aborted (fulfilled page)) s = ground arith
step_grows (first_came request aborted (rejected (abort_error m))) s = ground arith
step_grows (first_came request aborted (rejected reason)) s = ground arith
step_grows (more_came request (fulfilled page)) s = ground arith
step_grows (more_came request (rejected reason)) s = ground arith

run_grows : (es : List Event) (s : State) → s.list_request ≤ (run es s).list_request
unfolding run
run_grows [] s = omega arith
run_grows (e ∷ es) s = omega (arith, step_grows e s, run_grows es (step e s))

late_number :
    (n : ℕ) (es : List Event) (s : State) → n ≤ s.list_request → n < (run es (start s)).list_request
unfolding start
late_number n es s h = omega (arith, run_grows es (start s))

-- Once a newer request has started, the answers of the older ones are ignored for good: whatever
-- happens in between, neither answer of a number below the current one changes anything.
pub late_answers_ignored :
    (n : ℕ) (aborted : Bool) (reply : Settled Page) (es : List Event) (s : State)
    → n ≤ s.list_request
    → let t = run es (start s) in
      (first_answered n aborted reply t ≡ t) × (more_answered n reply t ≡ t)
late_answers_ignored n aborted reply es s h =
    let grown = run_grows es (start s) in
    let late = late_number n es s h in
    (first_stale n aborted reply _ late, more_stale n reply _ late)

-- The answer of the current request is shown as the server sends it, and loading ends.
pub first_answered_current :
    (page : Page) (s : State)
    → let t = first_answered s.list_request false (fulfilled page) s in
      (t.orders ≡ page.orders)
      × (t.loading ≡ false)
      × (t.has_more ≡ page.has_more)
      × (t.active_count ≡ some page.active_count)
unfolding first_answered take_first show_page
first_answered_current page s = ground arith

-- The next page of the same request is put behind the orders that are shown.
pub more_answered_current :
    (page : Page) (s : State)
    → let t = more_answered s.list_request (fulfilled page) s in
      (t.orders ≡ s.orders ++ page.orders) × (t.loading_more ≡ false)
unfolding more_answered take_more
more_answered_current page s = ground arith
