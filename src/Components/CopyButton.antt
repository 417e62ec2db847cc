-- ===== src/Components/CopyButton.antt =====
-- The copy button (web/src/components.tsx: CopyButton). `copied` is its whole state; the timer
-- that clears it fires after 1500 ms.
use radif.Prelude.{Bool}

-- What a press does: the new state, whether `onCopied` is called and whether the timer is set.
pub record Press : Type 0 where
  pub copied : Bool
  pub on_copied_called : Bool
  pub timer_set : Bool

-- `works` tells whether the clipboard takes the text.
unfoldable pub copy : Bool → Press
copy works = record { copied = works; on_copied_called = works; timer_set = works }
