-- ===== src/Examples/Entering.antt =====
-- The login.
use radif.Prelude.{text, ◌≡◌, refl, false, none, some}
use radif.Login.Steps as Login
use radif.Login.Fields.{type_identifier, edit}
use radif.Shared.Drawing.{offers}
use radif.Login.View.{is_serious, waiting-offers}
use radif.Login.View as Drawn
use radif.Login.Tasks.{Page, identifying, step_of, edited, began, here, next}

abbrev first : Page
first = record { state = Login.init; task = none }

abbrev named : Page
named = record first { state = edit (type_identifier (text "sara")) Login.init }

abbrev waiting : Page
waiting = record { state = Login.begin named.state; task = some identifying }

waiting-offers_example : offers is_serious (Drawn.view waiting.state) ≡ false
unfolding Login.init edit step_of
waiting-offers_example =
    waiting-offers is_serious (λ a h. h)
      (next (next here (edited first (type_identifier (text "sara"))))
        (began named identifying refl refl))
      refl
