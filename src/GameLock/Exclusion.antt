-- ===== src/GameLock/Exclusion.antt =====
-- No two threads are in the game at once, and what each call of a lock comes to.
use blueboat_cpp.GameLock.Shape.{
  outside, IsRight, IsShaped, holds, inside, paused, perform-IsRight, guarded,
}
use blueboat_cpp.GameLock.{
  GameLockGuard, Thread, done, blocks, misused, is_undefined, lock_mutex, construct, destruct,
  begin_wait, end_wait, Outcome, owns_at, set_owns_at, entered, current_lock, unlock, relocked,
  relock,
}
use blueboat_cpp.GameLock.Steps.{
  World, Step, step, Reach, begins, later, Action, enter, stop_for, resume, perform, is_due, idle,
  leave,
}
use blueboat_cpp.Base.{
  ℕ, ◌≡◌, refl, sym, ap, ◌∙◌, ◌≢◌, ◌↔◌, inl, inr, Bool, true, false, not, ◌&&◌, Option, none, some,
  List, [], ◌∷◌, arith, ◌==◌, ==_iff, Bool-cases,
}

abbrev AreShaped : World → Type 0
AreShaped w = (i : ℕ) → IsShaped (w.thread i) (w.waits i) (holds i w.mutex)

holds-same : (i u : ℕ) (m : Option ℕ) → i == u ≡ true → holds i m ≡ holds u m
holds-same i u m e = ap (λ v. holds v m) ((==_iff i u).0 e)

Step-AreShaped : {w w' : World} → AreShaped w → Step w w' → AreShaped w'
Step-AreShaped {w} h (step i a {m} {th} due e) u = elim (Bool-cases (i == u)) [
  | inl mine ↦ rw (mine, sym (holds-same i u m mine)) right.0
  | inr other ↦ rw (other, right.1 u (λ same. ground arith)) (h u)
]
  where
    right : IsRight a i w.mutex (w.thread i) (done (m, th))
    right = rw e at (perform-IsRight a i w.mutex (h i) refl due)

Reach-AreShaped :
    {w : World} → Reach w → (i : ℕ) → IsShaped (w.thread i) (w.waits i) (holds i w.mutex)
Reach-AreShaped begins i = outside false
Reach-AreShaped (later r s) i = Step-AreShaped (Reach-AreShaped r) s i

abbrev is_in_block : List GameLockGuard → Bool
is_in_block [] = false
is_in_block (g ∷ gs) = true

-- whether a thread is in a guarded block and does not wait: it may use the rooms, whether it has the
-- mutex or not
abbrev pub is_in_game : World → ℕ → Bool
is_in_game w i = is_in_block (w.thread i).guards && not (w.waits i)

IsShaped-held : {th : Thread} {w b : Bool} → IsShaped th w b → (is_in_block th.guards && not w) ≡ b
IsShaped-held (outside w) = refl
IsShaped-held inside = refl
IsShaped-held paused = refl

holder_unique : (m : Option ℕ) (i j : ℕ) → holds i m ≡ true → holds j m ≡ true → i ≡ j
holder_unique none i j in_i in_j = ground arith
holder_unique (some k) i j in_i in_j = ground arith

-- Two threads are never both inside guarded blocks and not waiting there, whatever the order in
-- which threads enter and leave guarded blocks, give the lock up for a wait and come back from it,
-- and however many threads there are: what is guarded is done by one thread at a time.
pub is_in_game_unique :
    {w : World} → Reach w → (i j : ℕ) → is_in_game w i ≡ true → is_in_game w j ≡ true → i ≡ j
is_in_game_unique {w} r i j in_i in_j =
    holder_unique w.mutex i j (sym (IsShaped-held (Reach-AreShaped r i)) ∙ in_i)
      (sym (IsShaped-held (Reach-AreShaped r j)) ∙ in_j)

IsRight-misused : (a : Action) (i : ℕ) (m : Option ℕ) (th : Thread) → IsRight a i m th misused → ⊥
IsRight-misused a i m th h = h

enter-undefined :
    (i : ℕ) (m : Option ℕ) (th : Thread) → IsRight enter i m th is_undefined → holds i m ≡ true
enter-undefined i m th (inl (e, h)) = h
enter-undefined i m th (inr (e, h)) = cc

entered-undefined :
    (i : ℕ) (m : Option ℕ) (th : Thread) → holds i m ≡ true → construct i m th ≡ is_undefined
unfolding construct lock_mutex
entered-undefined i none th h = ground arith
entered-undefined i (some j) th h = rw h refl

-- In every state that threads can reach, the lock that `current_lock` gives is owned where
-- `allow_reconnection` unlocks it and is not where it locks it again, so that neither call throws;
-- and a thread that does not wait may construct a guard, now or after others leave, exactly when it
-- is in no guarded block: a guard in a guarded block locks a mutex that its own thread has locked.
pub calls_are_right :
    {w : World}
    → Reach w
    → (i : ℕ)
    → (w.waits i ≡ false → begin_wait w.mutex (w.thread i) ≢ misused)
      × (w.waits i ≡ true → end_wait i w.mutex (w.thread i) ≢ misused)
      × (w.waits i ≡ false
          → (construct i w.mutex (w.thread i) ≡ is_undefined) ↔ (is_in_game w i ≡ true))
calls_are_right {w} r i = (
  λ free e. right stop_for (rw free refl) e,
  λ waiting e. right resume waiting e,
  λ free. (
    λ e.
        sym held
        ∙ enter-undefined i w.mutex (w.thread i)
            (rw e at (perform-IsRight enter i w.mutex form refl (rw free refl))),
    λ inn. entered-undefined i w.mutex (w.thread i) (held ∙ inn),
  ),
)
  where
    form : IsShaped (w.thread i) (w.waits i) (holds i w.mutex)
    form = Reach-AreShaped r i

    held : holds i w.mutex ≡ is_in_game w i
    held = sym (IsShaped-held form)

    right : (a : Action) → is_due a (w.waits i) ≡ true → perform a i w.mutex (w.thread i) ≢ misused
    right a due e =
        IsRight-misused a i w.mutex (w.thread i)
          (rw e at (perform-IsRight a i w.mutex form refl due))

owner : (m : Option ℕ) (i : ℕ) → lock_mutex i m ≡ blocks → (j : ℕ) × (j ≢ i) × (holds j m ≡ true)
unfolding lock_mutex
owner none i e = cc
owner (some j) i e = (j, λ same. ground arith, ground arith)

entered-blocks : (th : Thread) (o : Outcome (Option ℕ)) → entered th o ≡ blocks → o ≡ blocks
entered-blocks th (done m) e = cc
entered-blocks th blocks e = refl
entered-blocks th misused e = cc
entered-blocks th is_undefined e = cc

relocked-blocks :
    (a : ℕ) (th : Thread) (o : Outcome (Option ℕ)) → relocked a th o ≡ blocks → o ≡ blocks
relocked-blocks a th (done m) e = cc
relocked-blocks a th blocks e = refl
relocked-blocks a th misused e = cc
relocked-blocks a th is_undefined e = cc

perform-blocks :
    (a : Action) (i : ℕ) (m : Option ℕ) {th : Thread} {w b : Bool}
    → IsShaped th w b
    → is_due a w ≡ true
    → perform a i m th ≡ blocks
    → lock_mutex i m ≡ blocks
unfolding construct destruct begin_wait end_wait current_lock unlock relock owns_at set_owns_at
perform-blocks enter i m {th} shape d e = entered-blocks th (lock_mutex i m) e
perform-blocks leave i m (outside w) d e = cc
perform-blocks leave i m inside d e = cc
perform-blocks leave i m paused d e = cc
perform-blocks stop_for i m (outside w) d e = cc
perform-blocks stop_for i m inside d e = cc
perform-blocks stop_for i m paused d e = cc
perform-blocks resume i m (outside w) d e = cc
perform-blocks resume i m inside d e = cc
perform-blocks resume i m paused d e = relocked-blocks 0 (guarded false) (lock_mutex i m) e

IsShaped-owner :
    {th : Thread} {w b : Bool} (m : Option ℕ)
    → IsShaped th w b
    → b ≡ true
    → ((is_in_block th.guards && not w) ≡ true) × (w ≡ false) × (destruct m th ≡ done (none, idle))
unfolding destruct
IsShaped-owner m (outside w) e = cc
IsShaped-owner m inside e = (refl, refl, refl)
IsShaped-owner m paused e = cc

-- A thread that finds the mutex locked, on its way into a guarded block or back from a wait,
-- in a state that threads can reach: another thread is in a guarded block, does not wait, and can
-- leave it, and when it does the mutex is free.
pub blocked-owner :
    {w : World}
    → Reach w
    → (i : ℕ) (a : Action) → is_due a (w.waits i) ≡ true
    → perform a i w.mutex (w.thread i) ≡ blocks
    → (j : ℕ) × (j ≢ i)
      × (is_in_game w j ≡ true)
      × (w.waits j ≡ false)
      × (destruct w.mutex (w.thread j) ≡ done (none, idle))
blocked-owner {w} r i a due e =
    let (j, other, held) =
      owner w.mutex i (perform-blocks a i w.mutex (Reach-AreShaped r i) due e) in
    let (inn, free, leaves) = IsShaped-owner w.mutex (Reach-AreShaped r j) held in
    (j, other, inn, free, leaves)
