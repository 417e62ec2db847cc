-- ===== src/App/Unlock.antt =====
-- What a locked frame waits for.
use radif.Prelude.{◌==◌, any, ℕ, ◌≡◌, Bool, true, List}
use radif.HistoricalOrder.Fields as Form
use radif.App.Busy.{Task, mounts, Frame, is_pending}

-- Whether a task is among those that a page has left to do.
abbrev pub has_task : ℕ → List Task → Bool
has_task mount tasks = any (λ n. n == mount) (mounts tasks)

-- A locked frame: its page is pending, and has a task that has not ended.
abbrev CanUnlock : Frame → Type 0
CanUnlock f = f.creating ≡ true → (is_pending f.page ≡ true) × (has_task f.mount f.tasks ≡ true)
