-- ===== src/Orders/Address.antt =====
-- The address of the list: what the cleaning effect leaves, and what the query asks for.
use radif.Prelude.{
  if◌then◌else◌, present, or_else, is_empty, text, text_eq, trim, Text, ◌≡◌, refl, true, false,
  Option, none, some, List, [], ◌∷◌, arith,
}
use radif.Orders.Filters.{
  Params, View, active, archive, view_of, search_of, normalized_search, status_of, includes,
  allowed_sorts, default_sort, chosen_sort, query_sort, bad_sort, bad_status, kept_sort,
  kept_status, end_search, invalid_sort, invalid_status, shown_statuses, clean, by_q, set_filter,
}

-- An address that the cleaning effect leaves alone.
abbrev pub IsClean : Params → Type 0
IsClean p = (present p.delivery ≡ false) × (invalid_sort p ≡ false) × (invalid_status p ≡ false)

clean-none : (p : Params) → IsClean p → clean p ≡ none
unfolding clean
clean-none p (d, s, t) = rw (d, s, t)

cleaned : Params → Params
cleaned p = record p {
  delivery = none;
  sort = if invalid_sort p then none else p.sort;
  status = if invalid_status p then none else p.status;
}

sort_clean : (p : Params) → invalid_sort (cleaned p) ≡ false
unfolding cleaned invalid_sort bad_sort normalized_search search_of view_of
sort_clean p = ground arith

status_clean : (p : Params) → invalid_status (cleaned p) ≡ false
unfolding cleaned invalid_status bad_status status_of normalized_search search_of view_of
status_clean p = ground arith

cleaned-IsClean : (p : Params) → IsClean (cleaned p)
unfolding cleaned
cleaned-IsClean p = (refl, sort_clean p, status_clean p)

clean_cases : (p q : Params) → clean p ≡ some q → q ≡ cleaned p
unfolding clean cleaned
clean_cases p q e = ground arith

-- The cleaning effect runs at most twice in a row: an address that it has cleaned it leaves alone.
pub clean_once : (p q : Params) → clean p ≡ some q → clean q ≡ none
clean_once p q e = rw (clean_cases p q e) (clean-none (cleaned p) (cleaned-IsClean p))

chosen_sort-includes :
    (r : Option Text) (allowed : List Text) (default : Text)
    → includes allowed default ≡ true
    → includes allowed (chosen_sort r allowed default) ≡ true
unfolding chosen_sort
chosen_sort-includes none allowed default h = h
chosen_sort-includes (some r) allowed default h = ground arith

default_sort-allowed :
    (t : Text) (v : View) → includes (allowed_sorts t v) (default_sort t v) ≡ true
unfolding allowed_sorts default_sort includes text text_eq
default_sort-allowed (_ ∷ _) _ = refl
default_sort-allowed [] archive = refl
default_sort-allowed [] active = refl

-- The query never asks for a sort that its view does not have, whatever the address names.
pub query_sort-allowed :
    (deferred : Text) (p : Params)
    → includes (allowed_sorts deferred (view_of p)) (query_sort deferred p) ≡ true
unfolding query_sort
query_sort-allowed deferred p =
    chosen_sort-includes p.sort _ _ (default_sort-allowed deferred (view_of p))

trim-nil : trim [] ≡ []
unfolding trim
trim-nil = refl

-- What is left of the sorts and statuses of a search is allowed without one.
kept_sort-good :
    (v : View) (search : Text) (sort : Option Text)
    → bad_sort sort search v ≡ false
    → bad_sort (kept_sort v sort) [] v ≡ false
unfolding bad_sort kept_sort includes allowed_sorts
kept_sort-good v search none h = refl
kept_sort-good active [] (some r) h = ground arith
kept_sort-good active (_ ∷ _) (some r) h = ground arith
kept_sort-good archive [] (some r) h = ground arith
kept_sort-good archive (_ ∷ _) (some r) h = ground arith

kept_status-good :
    (v : View) (status : Option Text) → bad_status (or_else (kept_status v status) []) [] v ≡ false
unfolding bad_status kept_status shown_statuses
kept_status-good v none = refl
kept_status-good v (some t) = ground arith

-- Ending a search keeps a clean address clean: what only a search allows is dropped with it.
pub set_filter-blank-IsClean :
    (p : Params) (blank : Text)
    → is_empty (trim blank) ≡ true
    → IsClean p
    → IsClean (set_filter by_q blank p)
unfolding set_filter end_search invalid_sort invalid_status normalized_search search_of status_of
    view_of
set_filter-blank-IsClean p blank b (d, s, t) =
    rw (b, trim-nil)
      (
        d,
        kept_sort-good (view_of p) (normalized_search p) p.sort s,
        kept_status-good (view_of p) p.status,
      )
