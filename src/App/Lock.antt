-- ===== src/App/Lock.antt =====
-- When the frame of a shop's pages is locked.
use radif.Prelude.{ℕ, ◌≡◌, ap, Bool, true, false, List, [], ◌∷◌, ◌++◌}
use radif.HistoricalOrder.State as Old
use radif.HistoricalOrder.Fields as Form
use radif.App.Busy.{Task, mount_of, mounts, Frame, is_pending}

-- The counts of the pages with tasks, by whether the page that is open is pending.
abbrev pub unended : Bool → ℕ → List ℕ
unended true mount = mount ∷ []
unended false mount = []

-- The frame is locked exactly while the page is pending, and then the page's task is the only one.
pub record Agrees (f : Frame) : Type 0 where
  pub locked : f.creating ≡ is_pending f.page
  pub serial : mounts f.tasks ≡ unended (is_pending f.page) f.mount

-- A task that goes on to its next part belongs to the same page.
pub mounts-next :
    (before after : List Task) (t u : Task)
    → mount_of t ≡ mount_of u
    → mounts (before ++ t ∷ after) ≡ mounts (before ++ u ∷ after)
mounts-next [] after t u e = ap (λ n. n ∷ mounts after) e
mounts-next (v ∷ before) after t u e = ap (λ ns. mount_of v ∷ ns) (mounts-next before after t u e)
