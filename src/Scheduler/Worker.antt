-- ===== src/Scheduler/Worker.antt =====
-- The worker's thread, among the threads that set and cancel timers and the end of the process.
use blueboat_cpp.Scheduler.{
  set_timeout, turn, Turn, Scheduler, Task, clear, idle, wait_until, skip, run,
}
use blueboat_cpp.Base.{ℕ, Bool, true, Option, List, [], ◌∷◌, if◌then◌else◌}

pub record Worker {ℓ} (C : Type ℓ) : Type ℓ where
  pub scheduler : Scheduler C
  pub stopping : Bool
  -- the tasks whose callbacks were called, the latest first, each counted from the round that takes
  -- it off the list to call it
  pub called : List (Task C)

-- The worker comes to the test of its loop at this time; another thread sets a timer or cancels
-- one; or the process ends, which runs the destructor.
pub data Happening {ℓ} (C : Type ℓ) : Type ℓ where
  awake : ℕ → Happening C
  sets : ℕ → ℕ → C → Happening C
  cancels : Option ℕ → Happening C
  ends : Happening C

module _ {ℓ} {C : Type ℓ} where
  abbrev pub add_call : Turn C → List (Task C) → List (Task C)
  add_call idle called = called
  add_call (wait_until t) called = called
  add_call (skip t) called = called
  add_call (run t) called = t ∷ called

  -- A round, unless the worker is to stop.
  unfoldable pub wake : ℕ → Worker C → Worker C
  unfolding turn
  wake now w =
      let (did, s) = turn now w.scheduler in
      if w.stopping then w else record w { scheduler = s; called = add_call did w.called }

  -- Impl::~Impl
  unfoldable pub stop : Worker C → Worker C
  stop w = record w { stopping = true }

  unfoldable pub happen : Happening C → Worker C → Worker C
  unfolding wake stop set_timeout clear
  happen (awake now) w = wake now w
  happen (sets now delay callback) w = record w {
    scheduler = (set_timeout now delay callback w.scheduler).1;
  }
  happen (cancels h) w = record w { scheduler = clear h w.scheduler }
  happen ends w = stop w

  unfoldable pub work : List (Happening C) → Worker C → Worker C
  unfolding happen
  work [] w = w
  work (h ∷ hs) w = work hs (happen h w)
