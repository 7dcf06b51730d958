-- ===== src/Scheduler.antt =====
-- common/include/blueboat/common/scheduler.hpp and common/src/scheduler.cpp: timers. A handle is a
-- number, and `cancelled` the shared flags that the handles point to. `turn` is one round of the
-- worker's loop at a reading of the clock, up to the place where it gives up the lock for the
-- callback of the task that it has found not cancelled; the call comes behind it, and `clear`, which
-- takes no lock, may come between.
pub mod Turns
pub mod Cancelled
pub mod Progress
pub mod Worker
pub mod Once
use blueboat_cpp.Base.{
  ℕ, suc, ◌+◌, Bool, true, Option, none, some, List, [], ◌∷◌, ◌++◌, ltb, ◌==◌, if◌then◌else◌,
  find_if, erase_first,
}

pub record Task {ℓ} (C : Type ℓ) : Type ℓ where
  pub due : ℕ
  pub callback : C
  pub handle : ℕ

pub record Scheduler {ℓ} (C : Type ℓ) : Type ℓ where
  pub tasks : List (Task C)
  pub cancelled : ℕ → Bool
  pub next_handle : ℕ

module _ {ℓ} {C : Type ℓ} where
  unfoldable pub set_timeout : ℕ → ℕ → C → Scheduler C → ℕ × Scheduler C
  set_timeout now delay callback s =
      (s.next_handle, record s { tasks = s.tasks ++ task ∷ []; next_handle = suc s.next_handle })
    where
      task : Task C
      task = record { due = now + delay; callback = callback; handle = s.next_handle }

  -- TimerHandle::clear; a default-constructed handle is `none`
  unfoldable pub clear : Option ℕ → Scheduler C → Scheduler C
  clear none s = s
  clear (some h) s = record s { cancelled = λ g. if g == h then true else s.cancelled g }

  -- the least due time, and the first task that has it (`min_element`)
  unfoldable pub least_due : ℕ → List (Task C) → ℕ
  least_due m [] = m
  least_due m (t ∷ ts) = least_due (if ltb t.due m then t.due else m) ts

  abbrev pub is_due_at : ℕ → Task C → Bool
  is_due_at m t = t.due == m

-- What a round does: wait for a notification, wait until a time, drop a cancelled task, or
-- give up the lock to run a callback.
pub data Turn {ℓ} (C : Type ℓ) : Type ℓ where
  idle : Turn C
  wait_until : ℕ → Turn C
  skip : Task C → Turn C
  run : Task C → Turn C

module _ {ℓ} {C : Type ℓ} where
  abbrev take_next : Scheduler C → ℕ → Option (Task C) → Turn C × Scheduler C
  take_next s m none = (idle, s)
  take_next s m (some t) =
      let s' = record s { tasks = erase_first (is_due_at m) s.tasks } in
      if s.cancelled t.handle then (skip t, s') else (run t, s')

  abbrev choose : ℕ → Scheduler C → List (Task C) → Turn C × Scheduler C
  choose now s [] = (idle, s)
  choose now s (t ∷ ts) =
      let m = least_due t.due ts in
      if ltb now m then (wait_until m, s) else take_next s m (find_if (is_due_at m) s.tasks)

  unfoldable pub turn : ℕ → Scheduler C → Turn C × Scheduler C
  unfolding least_due
  turn now s = choose now s s.tasks
