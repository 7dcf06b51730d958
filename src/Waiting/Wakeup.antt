-- ===== src/Waiting/Wakeup.antt =====
-- Whether the thread that waits learns of the end.
use blueboat_cpp.Waiting.{
  look, State, Waiter, parking, parked, Stopper, to_set, to_notify, over, holds_mutex, notify_all,
  Step, enters, looks, parks, works, comes_back, wakes, sets, notifies, outside, looking, busy,
  returned, Reach, starts, later,
}
use blueboat_cpp.Base.{◌≡◌, refl, Bool, true, false, arith}

-- What holds of the waiter, as far as the thread that stops it has come.
abbrev IsSafe : Waiter → Stopper → Bool → Type 0
IsSafe w to_set f = f ≡ false
IsSafe parking to_notify f = ⊥
IsSafe w to_notify f = f ≡ true
IsSafe parking over f = ⊥
IsSafe parked over f = ⊥
IsSafe w over f = f ≡ true

abbrev IsSafeState : State → Type 0
IsSafeState s = IsSafe s.waiter s.stopper s.flag

Step-IsSafe : {s s' : State} → Step true s s' → IsSafeState s → IsSafeState s'
unfolding look notify_all holds_mutex
Step-IsSafe (enters {st = to_set}) h = h
Step-IsSafe (enters {st = to_notify}) h = h
Step-IsSafe (enters {st = over}) h = h
Step-IsSafe (comes_back {st = to_set}) h = h
Step-IsSafe (comes_back {st = to_notify}) h = h
Step-IsSafe (comes_back {st = over}) h = h
Step-IsSafe (looks {st = to_set} {f = true}) h = ground arith
Step-IsSafe (looks {st = to_set} {f = false}) h = refl
Step-IsSafe (looks {st = to_notify} {f = true}) h = refl
Step-IsSafe (looks {st = to_notify} {f = false}) h = ground arith
Step-IsSafe (looks {st = over} {f = true}) h = refl
Step-IsSafe (looks {st = over} {f = false}) h = ground arith
Step-IsSafe (parks {st = to_set}) h = h
Step-IsSafe (parks {st = to_notify}) h = absurd h
Step-IsSafe (parks {st = over}) h = absurd h
Step-IsSafe (works {st = to_set}) h = h
Step-IsSafe (works {st = to_notify}) h = absurd h
Step-IsSafe (works {st = over}) h = absurd h
Step-IsSafe (wakes {st = to_set}) h = h
Step-IsSafe (wakes {st = to_notify}) h = h
Step-IsSafe (wakes {st = over}) h = absurd h
Step-IsSafe (sets {w = outside} free) h = refl
Step-IsSafe (sets {w = parked} free) h = refl
Step-IsSafe (sets {w = busy} free) h = refl
Step-IsSafe (sets {w = returned} free) h = refl
Step-IsSafe (sets {w = looking} free) h = ground arith
Step-IsSafe (sets {w = parking} free) h = ground arith
Step-IsSafe (notifies {w = outside}) h = h
Step-IsSafe (notifies {w = looking}) h = h
Step-IsSafe (notifies {w = parked}) h = h
Step-IsSafe (notifies {w = busy}) h = h
Step-IsSafe (notifies {w = returned}) h = h
Step-IsSafe (notifies {w = parking}) h = absurd h

Reach-IsSafe : {s : State} → Reach true s → IsSafeState s
Reach-IsSafe starts = refl
Reach-IsSafe (later r st) = Step-IsSafe st (Reach-IsSafe r)

-- It is behind the loop, or leaves it at its next look, which it comes to by itself.
abbrev pub IsTold : Waiter → Bool → Type 0
IsTold parking f = ⊥
IsTold parked f = ⊥
IsTold outside f = look f ≡ returned
IsTold looking f = look f ≡ returned
IsTold busy f = look f ≡ returned
IsTold returned f = Unit

told : (w : Waiter) (f : Bool) → IsSafe w over f → IsTold w f
unfolding look
told outside f h = rw h refl
told looking f h = rw h refl
told parking f h = h
told parked f h = h
told busy f h = rw h refl
told returned f h = tt

-- Where the flag is set with the mutex held, as the scheduler's destructor does, then in every order
-- of steps and once its notification is sent, the waiter does not wait and is not about to: it has
-- left its loop or does at its next look. Where the flag is set without, as `Server::shutdown`
-- does, there is an order in which the waiter of `run_forever` waits when all is over, with the flag
-- set, and nobody left to wake it.
pub stop-IsTold :
    ((s : State) → Reach true s → s.stopper ≡ over → IsTold s.waiter s.flag)
    × Reach false (record { waiter = parked; stopper = over; flag = true })
unfolding look notify_all holds_mutex
stop-IsTold = (
  λ s r e. told s.waiter s.flag (rw e at (Reach-IsSafe r)),
  later (later (later (later (later starts enters) looks) (sets refl)) notifies) parks,
)
