-- ===== src/Examples/Importing.antt =====
-- An order that was made elsewhere.
use radif.Prelude.{text, refl}
use radif.Shared.Types.{SalesChannel}
use radif.HistoricalOrder.State.{State, Env, init}
use radif.HistoricalOrder.Fields.{pick_date, type_amount, edit}
use radif.HistoricalOrder.Invariant.{edited, here, next, IsValid, Reach-IsValid}
use radif.Examples.Data.{signal}

abbrev env : Env
env = record { shop_id = 5; event_key = text "e-1"; signal = signal }

abbrev fresh : State
fresh = init SalesChannel.instagram (text "key-1")

abbrev dated : State
dated = edit (pick_date (text "2026-12-01")) fresh

Reach-IsValid_example : IsValid (edit (type_amount (text "500,000")) dated)
unfolding init edit
Reach-IsValid_example = Reach-IsValid SalesChannel.instagram (text "key-1") (
    next (next here (edited fresh (pick_date (text "2026-12-01")) refl))
      (edited dated (type_amount (text "500,000")) refl))
