-- ===== src/Shared/Effects.antt =====
-- Reading a list of effects: the calls of the server, and the storage entries that are removed.
use radif.Prelude.{
  Bool-cases, inl, inr, leb, ◌==◌, if◌then◌else◌, text_eq, Text, String, ◌≡◌, refl, ap, Bool, false,
  ◌||◌, List, [], ◌∷◌, ◌++◌, arith,
}
use radif.Shared.Api.{
  Effect, call, pilot, beacon, remove_local, remove_session, busy_change, Request, SignalReply,
  answered, unreachable, send_pilot_event, Value,
}

abbrev pub calls : List Effect → List Request
calls [] = []
calls (call r ∷ es) = r ∷ calls es
calls (_ ∷ es) = calls es

pub calls-append : (es fs : List Effect) → calls (es ++ fs) ≡ calls es ++ calls fs
calls-append [] fs = refl
calls-append (call r ∷ es) fs = ap (λ x. r ∷ x) (calls-append es fs)
calls-append (_ ∷ es) fs = calls-append es fs

pub calls-send_pilot_event :
    (path : Text) (event : List (String × Value)) (reply : SignalReply)
    → calls (send_pilot_event path event reply) ≡ []
unfolding send_pilot_event
calls-send_pilot_event path event (answered status) = ground arith
calls-send_pilot_event path event unreachable = refl

-- What the surrounding page was told last: whether the form is busy.
abbrev pub told_busy : Bool → List Effect → Bool
told_busy b [] = b
told_busy b (busy_change c ∷ es) = told_busy c es
told_busy b (_ ∷ es) = told_busy b es

pub told_busy-append :
    (b : Bool) (es fs : List Effect) → told_busy b (es ++ fs) ≡ told_busy (told_busy b es) fs
told_busy-append b [] fs = refl
told_busy-append b (busy_change c ∷ es) fs = told_busy-append c es fs
told_busy-append b (_ ∷ es) fs = told_busy-append b es fs

-- Whether an entry of the session's or of the local storage is removed.
abbrev pub removes : Text → List Effect → Bool
removes key [] = false
removes key (remove_session k ∷ es) = text_eq k key || removes key es
removes key (remove_local k ∷ es) = text_eq k key || removes key es
removes key (_ ∷ es) = removes key es

pub removes-append :
    (key : Text) (es fs : List Effect) → removes key (es ++ fs) ≡ (removes key es || removes key fs)
removes-append key [] fs = refl
removes-append key (remove_session k ∷ es) fs = ground (arith, removes-append key es fs)
removes-append key (remove_local k ∷ es) fs = ground (arith, removes-append key es fs)
removes-append key (_ ∷ es) fs = removes-append key es fs

pub removes-send_pilot_event :
    (key path : Text) (event : List (String × Value)) (reply : SignalReply)
    → removes key (send_pilot_event path event reply) ≡ false
unfolding send_pilot_event
removes-send_pilot_event key path event (answered status) = ground arith
removes-send_pilot_event key path event unreachable = refl

-- The signals that are posted beside the calls, by `fetch` or as beacons, each with its path and event.
abbrev pub signals : List Effect → List (Text × List (String × Value))
signals [] = []
signals (pilot path event ∷ es) = (path, event) ∷ signals es
signals (beacon path event ∷ es) = (path, event) ∷ signals es
signals (_ ∷ es) = signals es

pub signals-append : (es fs : List Effect) → signals (es ++ fs) ≡ signals es ++ signals fs
signals-append [] fs = refl
signals-append (pilot path event ∷ es) fs = ap (λ x. (path, event) ∷ x) (signals-append es fs)
signals-append (beacon path event ∷ es) fs = ap (λ x. (path, event) ∷ x) (signals-append es fs)
signals-append (_ ∷ es) fs = signals-append es fs

-- A signal is posted a second time where the server cannot be reached, asks to wait, or fails.
abbrev pub posted {ℓ} : {A : Type ℓ} → SignalReply → A → List A
posted (answered status) x = if status == 429 || leb 500 status then x ∷ x ∷ [] else x ∷ []
posted unreachable x = x ∷ x ∷ []

pub signals-send_pilot_event :
    (path : Text) (event : List (String × Value)) (reply : SignalReply)
    → signals (send_pilot_event path event reply) ≡ posted reply (path, event)
unfolding send_pilot_event
signals-send_pilot_event path event (answered status) =
    elim (Bool-cases (status == 429 || leb 500 status)) [ inl e ↦ rw e refl | inr e ↦ rw e refl ]
signals-send_pilot_event path event unreachable = refl

pub ruleset effect_laws = (
  calls-append, calls-send_pilot_event, told_busy-append, removes-append, removes-send_pilot_event,
  signals-append, signals-send_pilot_event,
)
