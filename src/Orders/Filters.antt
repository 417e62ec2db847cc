-- ===== src/Orders/Filters.antt =====
-- The filters of the list of orders, which are kept in the address (web/src/pages/OrdersPage.tsx).
use radif.Prelude.{
  ◌==◌, if◌then◌else◌, present, or_else, any, is_empty, text, text_eq, trim, decimal, Text, ℕ,
  String, Bool, false, not, ◌&&◌, Option, none, some, List, [], ◌∷◌, ◌++◌,
}

-- `URLSearchParams`, by the names that the page uses. `none` is an absent name.
pub record Params : Type 0 where
  pub view : Option Text
  pub q : Option Text
  pub status : Option Text
  pub sort : Option Text
  pub delivery : Option Text
  pub others : List (Text × Text)

pub data View : Type 0 where
  active archive : View

unfoldable pub view_of : Params → View
view_of p = elim p.view [
  | none ↦ active
  | some v ↦ if text_eq v (text "archive") then archive else active
]

unfoldable pub search_of : Params → Text
search_of p = or_else p.q []

unfoldable pub normalized_search : Params → Text
normalized_search p = trim (search_of p)

unfoldable pub status_of : Params → Text
status_of p = or_else p.status []

unfoldable pub active_statuses : List Text
active_statuses = text "waiting_info" ∷ text "waiting_payment" ∷ text "paid" ∷ text "preparing" ∷ []

unfoldable pub archive_statuses : List Text
archive_statuses = text "shipped" ∷ text "cancelled" ∷ []

-- The keys of `adminStatusLabels`, in their order.
unfoldable pub all_statuses : List Text
all_statuses =
    text "waiting_info"
    ∷ text "waiting_payment"
    ∷ text "paid"
    ∷ text "preparing"
    ∷ text "shipped"
    ∷ text "cancelled"
    ∷ []

unfoldable pub includes : List Text → Text → Bool
includes ts t = any (text_eq t) ts

-- The sorts of a search, of the archive and of the active orders, and the one that goes without
-- being named.
unfoldable pub allowed_sorts : Text → View → List Text
allowed_sorts (_ ∷ _) _ = text "due" ∷ text "updated" ∷ text "recent" ∷ text "amount" ∷ []
allowed_sorts [] archive = text "updated" ∷ text "recent" ∷ text "amount" ∷ []
allowed_sorts [] active = text "due" ∷ text "recent" ∷ text "amount" ∷ []

unfoldable pub default_sort : Text → View → Text
default_sort (_ ∷ _) _ = text "updated"
default_sort [] archive = text "updated"
default_sort [] active = text "due"

-- `requestedSort && allowed.includes(requestedSort) ? requestedSort : default`
unfoldable pub chosen_sort : Option Text → List Text → Text → Text
chosen_sort none allowed default = default
chosen_sort (some r) allowed default = if not (is_empty r) && includes allowed r then r else default

-- The sort by the text typed so far, and the one of the query, by the deferred text.
unfoldable pub sort_of : Params → Text
sort_of p =
    chosen_sort p.sort (allowed_sorts (normalized_search p) (view_of p))
      (default_sort (normalized_search p) (view_of p))

unfoldable pub query_sort : Text → Params → Text
query_sort deferred p =
    chosen_sort p.sort (allowed_sorts deferred (view_of p)) (default_sort deferred (view_of p))

unfoldable pub bad_sort : Option Text → Text → View → Bool
bad_sort none search view = false
bad_sort (some r) search view = not (is_empty r) && not (includes (allowed_sorts search view) r)

unfoldable pub invalid_sort : Params → Bool
invalid_sort p = bad_sort p.sort (normalized_search p) (view_of p)

unfoldable pub statuses_of : View → List Text
statuses_of active = active_statuses
statuses_of archive = archive_statuses

unfoldable pub shown_statuses : Text → View → List Text
shown_statuses search view = if not (is_empty search) then all_statuses else statuses_of view

unfoldable pub bad_status : Text → Text → View → Bool
bad_status status search view =
    not (is_empty status) && not (includes (shown_statuses search view) status)

unfoldable pub invalid_status : Params → Bool
invalid_status p = bad_status (status_of p) (normalized_search p) (view_of p)

-- The effect that cleans the address: `none` where it does nothing.
unfoldable pub clean : Params → Option Params
clean p =
    if not (present p.delivery) && not (invalid_sort p) && not (invalid_status p)
    then none
    else some (record p {
      delivery = none;
      sort = if invalid_sort p then none else p.sort;
      status = if invalid_status p then none else p.status;
    })

pub data Filter : Type 0 where
  by_q by_status by_sort : Filter

unfoldable pub text_or_none : Text → Option Text
text_or_none [] = none
text_or_none (c ∷ t) = some (c ∷ t)

-- What `setFilter("q", …)` drops where the search ends.
unfoldable pub kept_status : View → Option Text → Option Text
kept_status view status =
    if not (is_empty (or_else status [])) && not (includes (statuses_of view) (or_else status []))
    then none
    else status

unfoldable pub kept_sort : View → Option Text → Option Text
kept_sort view none = none
kept_sort archive (some r) = if text_eq r (text "due") then none else some r
kept_sort active (some r) = if text_eq r (text "updated") then none else some r

unfoldable pub end_search : Params → Params
end_search p = record p {
  q = none;
  status = kept_status (view_of p) p.status;
  sort = kept_sort (view_of p) p.sort;
}

unfoldable pub set_filter : Filter → Text → Params → Params
set_filter by_status value p = record p { status = text_or_none value }
set_filter by_sort value p = record p { sort = text_or_none value }
set_filter by_q value p =
    if is_empty (trim value) then end_search p else record p { q = some value }

unfoldable pub set_view : View → Params → Params
set_view archive p = record p {
  view = some (text "archive");
  status = none;
  delivery = none;
  sort = none;
}
set_view active p = record p { view = none; status = none; delivery = none; sort = none }

unfoldable pub clear_filters : Params → Params
clear_filters p = record {
  view = elim (view_of p) [ archive ↦ some (text "archive") | active ↦ none ];
  q = none;
  status = none;
  sort = none;
  delivery = none;
  others = [];
}

unfoldable pub view_text : View → Text
view_text active = text "active"
view_text archive = text "archive"

-- `orderQuery(offset)`: the names and values of the query.
unfoldable pub order_query : ℕ → Text → Params → ℕ → List (String × Text)
order_query shop_id deferred p offset =
    ("shopId", decimal shop_id)
      ∷ ("view", if not (is_empty deferred) then text "all" else view_text (view_of p))
      ∷ ("sort", query_sort deferred p)
      ∷ (if not (is_empty deferred) then ("q", deferred) ∷ [] else [])
    ++ (if not (is_empty (status_of p)) && not (invalid_status p)
        then ("status", status_of p) ∷ []
        else [])
    ++ (if not (offset == 0) then ("offset", decimal offset) ∷ [] else [])
