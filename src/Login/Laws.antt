-- ===== src/Login/Laws.antt =====
-- How the tasks of the login end.
use radif.Prelude.{is_empty, ◌≡◌, refl, true, false, some, arith}
use radif.Shared.Types.{Me}
use radif.Shared.Api.{Settled, fulfilled, rejected}
use radif.Login.Steps.{
  State, Next, begin, fail, enter, done, settle_identify, identify, Entry, settle_entry, log_in,
  settle_reset, start_reset, settle_shop, create_shop,
}

enter_ends : (me : Me) (s : State) → (enter me s).0.pending ≡ false
unfolding enter
enter_ends me s = ground arith

pub settle_entry_ends :
    (reply : Settled (Unit {0})) (me : Settled Me) (s : State)
    → (settle_entry reply me s).0.pending ≡ false
unfolding settle_entry done fail
settle_entry_ends (rejected reason) me s = refl
settle_entry_ends (fulfilled _) (rejected reason) s = refl
settle_entry_ends (fulfilled _) (fulfilled me) s = enter_ends me s

pub settle_shop_ends :
    (reply : Settled (Unit {0})) (me : Settled Me) (s : State)
    → (settle_shop reply me s).0.pending ≡ false
unfolding settle_shop fail
settle_shop_ends (rejected reason) me s = refl
settle_shop_ends (fulfilled _) (rejected reason) s = refl
settle_shop_ends (fulfilled _) (fulfilled me) s = refl

pub settle_identify_ends :
    (next : Settled Next) (s : State) → (settle_identify next s).pending ≡ false
unfolding settle_identify fail
settle_identify_ends (fulfilled next) s = refl
settle_identify_ends (rejected reason) s = refl

pub settle_reset_ends :
    (reply : Settled (Unit {0})) (s : State) → (settle_reset reply s).pending ≡ false
unfolding settle_reset fail
settle_reset_ends (fulfilled _) s = refl
settle_reset_ends (rejected reason) s = refl

-- No task leaves the page pending, however its calls settle.
pub tasks_end :
    (entry : Entry) (next : Settled Next) (reply : Settled (Unit {0})) (me : Settled Me)
    (meanwhile : State → State) (s : State)
    → ((identify next meanwhile s).0.pending ≡ false)
      × ((log_in entry reply me meanwhile s).0.pending ≡ false)
      × ((start_reset reply meanwhile s).0.pending ≡ false)
      × ((create_shop reply me meanwhile s).0.pending ≡ false)
unfolding identify log_in start_reset create_shop
tasks_end entry next reply me meanwhile s = (
  settle_identify_ends next _,
  settle_entry_ends reply me _,
  settle_reset_ends reply _,
  settle_shop_ends reply me _,
)

-- Where both calls of a login succeed, an account with a shop is handed on as the server answered
-- it. An account without a shop is not handed on: the form of the shop comes next.
pub log_in_account :
    (entry : Entry) (me : Me) (meanwhile : State → State) (s : State)
    → let t = (log_in entry (fulfilled tt) (fulfilled me) meanwhile s).0 in
      let before = meanwhile (begin s) in
      (is_empty me.shops ≡ false → t.logged_in ≡ some me)
      × (is_empty me.shops ≡ true
          → (t.logged_in ≡ before.logged_in) × (t.step ≡ radif.Login.Steps.shop))
unfolding log_in settle_entry done enter
log_in_account entry me meanwhile s = (λ h. rw h refl, λ h. rw h (refl, refl))
