-- ===== src/GameLock/Steps.antt =====
-- Threads that enter and leave guarded blocks and wait in `Room::allow_reconnection`, in any order.
use blueboat_cpp.GameLock.{Thread, Outcome, done, construct, destruct, begin_wait, end_wait}
use blueboat_cpp.Base.{ℕ, ◌≡◌, Bool, true, false, not, Option, none, [], ◌==◌, if◌then◌else◌}

-- A thread that waits in `future.get()` does nothing else until it is done.
pub record World : Type 0 where
  pub mutex : Option ℕ
  pub thread : ℕ → Thread
  pub waits : ℕ → Bool

pub data Action : Type 0 where
  enter leave stop_for resume : Action

abbrev pub perform : Action → ℕ → Option ℕ → Thread → Outcome (Option ℕ × Thread)
perform enter me m th = construct me m th
perform leave me m th = destruct m th
perform stop_for me m th = begin_wait m th
perform resume me m th = end_wait me m th

-- whether a thread that waits, or does not, comes to the action
abbrev pub is_due : Action → Bool → Bool
is_due resume w = w
is_due enter w = not w
is_due leave w = not w
is_due stop_for w = not w

abbrev pub waits_after : Action → Bool
waits_after stop_for = true
waits_after enter = false
waits_after leave = false
waits_after resume = false

abbrev pub set_at {ℓ} : {A : Type ℓ} → (ℕ → A) → ℕ → A → ℕ → A
set_at f i a j = if i == j then a else f j

-- A destructor runs only where its guard is alive.
pub data Step (w : World) : World → Type 0 where
  step :
      (i : ℕ) (a : Action) {m : Option ℕ} {th : Thread}
      → is_due a (w.waits i) ≡ true
      → perform a i w.mutex (w.thread i) ≡ done (m, th)
      → Step w (record {
        mutex = m;
        thread = set_at w.thread i th;
        waits = set_at w.waits i (waits_after a);
      })

abbrev pub idle : Thread
idle = record { guards = []; current_lock_slot = none }

abbrev pub start : World
start = record { mutex = none; thread = λ i. idle; waits = λ i. false }

pub data Reach : World → Type 0 where
  begins : Reach start
  later : {w w' : World} → Reach w → Step w w' → Reach w'
