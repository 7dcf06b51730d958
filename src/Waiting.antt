-- ===== src/Waiting.antt =====
-- Waiting on a condition variable for a flag: Server::run_forever in server/src/server.cpp, and the
-- worker of common/src/scheduler.cpp. The two differ in how the flag is set: ~Impl holds the mutex
-- for it, and Server::shutdown does not.
pub mod Wakeup
use blueboat_cpp.Base.{◌≡◌, Bool, true, false, ◌&&◌}

-- The thread that waits: before it locks the mutex, about to look at the flag, about to wait as the
-- flag was not set, waiting, at other work without the mutex, or behind the loop.
pub data Waiter : Type 0 where
  outside looking parking parked busy returned : Waiter

-- The thread that ends the wait: before it sets the flag, before it notifies, or behind that.
pub data Stopper : Type 0 where
  to_set to_notify over : Stopper

pub record State : Type 0 where
  pub waiter : Waiter
  pub stopper : Stopper
  pub flag : Bool

-- Whether the waiter has the mutex, which it holds from the look at the flag until it waits.
unfoldable pub holds_mutex : Waiter → Bool
holds_mutex looking = true
holds_mutex parking = true
holds_mutex outside = false
holds_mutex parked = false
holds_mutex busy = false
holds_mutex returned = false

-- The test of the loop, or of the predicate: `stopping`, or `shutting_down_.load()`.
unfoldable pub look : Bool → Waiter
look true = returned
look false = parking

-- Those that wait are woken, and nobody else.
unfoldable pub notify_all : Waiter → Waiter
notify_all parked = looking
notify_all outside = outside
notify_all looking = looking
notify_all parking = parking
notify_all busy = busy
notify_all returned = returned

abbrev pub begun : State
begun = record { waiter = outside; stopper = to_set; flag = false }

-- `locked` tells whether the flag is set with the mutex held.
pub data Step (locked : Bool) : State → State → Type 0 where
  enters :
      {st : Stopper} {f : Bool}
      → Step locked
          (record { waiter = outside; stopper = st; flag = f })
          (record { waiter = looking; stopper = st; flag = f })
  looks :
      {st : Stopper} {f : Bool}
      → Step locked
          (record { waiter = looking; stopper = st; flag = f })
          (record { waiter = look f; stopper = st; flag = f })
  parks :
      {st : Stopper} {f : Bool}
      → Step locked
          (record { waiter = parking; stopper = st; flag = f })
          (record { waiter = parked; stopper = st; flag = f })
  -- instead of waiting, the worker calls a task
  works :
      {st : Stopper} {f : Bool}
      → Step locked
          (record { waiter = parking; stopper = st; flag = f })
          (record { waiter = busy; stopper = st; flag = f })
  comes_back :
      {st : Stopper} {f : Bool}
      → Step locked
          (record { waiter = busy; stopper = st; flag = f })
          (record { waiter = looking; stopper = st; flag = f })
  -- another notification, a time that has come, or a spurious end of the wait
  wakes :
      {st : Stopper} {f : Bool}
      → Step locked
          (record { waiter = parked; stopper = st; flag = f })
          (record { waiter = looking; stopper = st; flag = f })
  sets :
      {w : Waiter} {f : Bool}
      → locked && holds_mutex w ≡ false
      → Step locked
          (record { waiter = w; stopper = to_set; flag = f })
          (record { waiter = w; stopper = to_notify; flag = true })
  notifies :
      {w : Waiter} {f : Bool}
      → Step locked
          (record { waiter = w; stopper = to_notify; flag = f })
          (record { waiter = notify_all w; stopper = over; flag = f })

pub data Reach (locked : Bool) : State → Type 0 where
  starts : Reach locked begun
  later : {s s' : State} → Reach locked s → Step locked s s' → Reach locked s'
