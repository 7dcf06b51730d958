-- ===== src/GameLock.antt =====
-- server/include/blueboat/game_lock.hpp, and the places of server/src/room.cpp that give the lock
-- up for a while: threads, numbered, that take one mutex by guards on their stacks. The address of
-- a guard's lock is the number of guards below it on the stack of its thread.
pub mod Steps
pub mod Shape
pub mod Exclusion
use blueboat_cpp.Base.{
  ℕ, Bool, true, false, Option, none, some, List, [], ◌∷◌, ◌==◌, if◌then◌else◌, length,
}

-- What a call on a mutex or a lock comes to; locking a mutex that the thread has locked is undefined
-- for `std::mutex`, and `std::unique_lock` throws a `system_error` where it is misused.
pub data Outcome {ℓ} (A : Type ℓ) : Type ℓ where
  done : A → Outcome A
  blocks misused is_undefined : Outcome A

-- `lock_`: whether the unique_lock owns the mutex
pub record GameLockGuard : Type 0 where
  pub lock_ : Bool
  pub previous_ : Option ℕ

pub record Thread : Type 0 where
  -- the guards that are alive, the innermost first
  pub guards : List GameLockGuard
  pub current_lock_slot : Option ℕ

-- m.lock() by a thread; the mutex is the thread that has locked it
unfoldable pub lock_mutex : ℕ → Option ℕ → Outcome (Option ℕ)
lock_mutex me none = done (some me)
lock_mutex me (some other) = if other == me then is_undefined else blocks

unfoldable pub owns_at : ℕ → List GameLockGuard → Bool
owns_at a [] = false
owns_at a (g ∷ gs) = if length gs == a then g.lock_ else owns_at a gs

unfoldable pub set_owns_at : ℕ → Bool → List GameLockGuard → List GameLockGuard
set_owns_at a b [] = []
set_owns_at a b (g ∷ gs) =
    let rest = set_owns_at a b gs in
    if length gs == a then record g { lock_ = b } ∷ gs else g ∷ rest

abbrev entered : Thread → Outcome (Option ℕ) → Outcome (Option ℕ × Thread)
entered th (done m) = done (
  m,
  record {
    guards = record { lock_ = true; previous_ = th.current_lock_slot } ∷ th.guards;
    current_lock_slot = some (length th.guards);
  },
)
entered th blocks = blocks
entered th misused = misused
entered th is_undefined = is_undefined

unfoldable pub construct : ℕ → Option ℕ → Thread → Outcome (Option ℕ × Thread)
unfolding lock_mutex
construct me m th = entered th (lock_mutex me m)

-- The destructor's body, and then that of `lock_`, which unlocks if it owns.
abbrev left : Option ℕ → List GameLockGuard → Outcome (Option ℕ × Thread)
left m [] = is_undefined
left m (g ∷ gs) =
    done (if g.lock_ then none else m, record { guards = gs; current_lock_slot = g.previous_ })

unfoldable pub destruct : Option ℕ → Thread → Outcome (Option ℕ × Thread)
destruct m th = left m th.guards

unfoldable pub current_lock : Thread → Option ℕ
current_lock th = th.current_lock_slot

-- lock->unlock()
unfoldable pub unlock : ℕ → Option ℕ → Thread → Outcome (Option ℕ × Thread)
unfolding owns_at set_owns_at
unlock a m th =
    if owns_at a th.guards
    then done (none, record th { guards = set_owns_at a false th.guards })
    else misused

abbrev relocked : ℕ → Thread → Outcome (Option ℕ) → Outcome (Option ℕ × Thread)
relocked a th (done m) = done (m, record th { guards = set_owns_at a true th.guards })
relocked a th blocks = blocks
relocked a th misused = misused
relocked a th is_undefined = is_undefined

-- lock->lock()
unfoldable pub relock : ℕ → ℕ → Option ℕ → Thread → Outcome (Option ℕ × Thread)
unfolding owns_at set_owns_at lock_mutex
relock me a m th = if owns_at a th.guards then misused else relocked a th (lock_mutex me m)

abbrev with_lock :
    (ℕ → Option ℕ → Thread → Outcome (Option ℕ × Thread))
    → Option ℕ
    → Option ℕ
    → Thread
    → Outcome (Option ℕ × Thread)
with_lock f none m th = done (m, th)
with_lock f (some a) m th = f a m th

-- Room::allow_reconnection before and after `future.get()`: `if (lock)`.
unfoldable pub begin_wait : Option ℕ → Thread → Outcome (Option ℕ × Thread)
unfolding unlock current_lock
begin_wait m th = with_lock unlock (current_lock th) m th

unfoldable pub end_wait : ℕ → Option ℕ → Thread → Outcome (Option ℕ × Thread)
unfolding relock current_lock
end_wait me m th = with_lock (relock me) (current_lock th) m th
