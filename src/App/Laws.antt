-- ===== src/App/Laws.antt =====
-- When the session ends, and which shop is selected.
use radif.Prelude.{
  ◌==◌, ==_iff, Bool-cases, any, find, text, text_eq, starts_with, decimal, number-decimal, Text, ℕ,
  ◌+◌, ◌≤◌, ◌<◌, ◌≡◌, refl, ◌↔◌, inl, inr, true, false, Option, some, List, [], ◌∷◌, arith,
}
use radif.Shared.Types.{Me, Shop}
use radif.Shared.Api.{api, Fetched, response, Settled}
use radif.App.Session.{Session, hear, guest_routes, view}
use radif.App.Shops.{
  stored_number, initial_shop_id, has_id, selected, change_shop, is_dismissed, dismiss,
}

-- A call that is answered with 401 ends the session, unless it is the call that logs out: at every
-- address but the landing page's and a public order's, the routes of a guest are shown then.
pub api_unauthorized :
    {A : Type 0} (path address : Text) (error_field : Option Text) (payload : Settled A)
    (session : Session)
    → text_eq path (text "/api/session") ≡ false
    → text_eq address (text "/") ≡ false
    → starts_with address (text "/o/") ≡ false
    → let r : Fetched A =
        response (record { status = 401; error_field = error_field; payload = payload }) in
      view address (hear (api path r).1 session) ≡ guest_routes
unfolding api hear view
api_unauthorized path address error_field payload session h k l = rw (h, k, l) refl

find_has :
    (id : ℕ) (shops : List Shop)
    → any (has_id id) shops ≡ true
    → (shop : Shop) × ((find (has_id id) shops ≡ some shop) × (shop.id ≡ id))
unfolding has_id
find_has id [] h = ground arith
find_has id (shop ∷ shops) h =
    let h_rest : (shop.id == id) ≡ false → any (has_id id) shops ≡ true = λ e. ground arith in
    elim (Bool-cases (shop.id == id)) [
      | inl e ↦ (shop, (rw e refl, (==_iff shop.id id).0 e))
      | inr e ↦ let (found, (f, g)) = find_has id shops (h_rest e) in (found, (rw (e, f) refl, g))
    ]

-- A shop of the account that is chosen is the selected one, and it is selected again when the
-- application is opened with the entry that was stored, from whatever address it was chosen.
pub selected-change_shop :
    (path : Text) (id : ℕ) (me : Me)
    → any (has_id id) me.shops ≡ true
    → (shop : Shop) × ((shop.id ≡ id)
        × ((selected (change_shop path id).0 me ≡ some shop)
            × (selected (initial_shop_id (some (decimal id)) me) me ≡ some shop)))
unfolding selected change_shop initial_shop_id stored_number
selected-change_shop path id me h =
    let (shop, (f, g)) = find_has id me.shops h in
    (shop, (g, (rw f refl, rw (number-decimal id, h, f) refl)))

-- An offer that was dismissed stays hidden for less than seven days, and no longer.
pub is_dismissed-dismiss :
    (at now : ℕ)
    → at ≤ now
    → (is_dismissed (some (dismiss at).1) now ≡ true) ↔ (now < at + 604800000)
unfolding is_dismissed dismiss stored_number
is_dismissed-dismiss at now h = rw (number-decimal at) (ground arith)
