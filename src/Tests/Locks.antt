-- ===== src/Tests/Locks.antt =====
-- Two threads that enter a guarded block, one of them waiting in between.
use blueboat_cpp.GameLock.Shape.{guarded}
use blueboat_cpp.GameLock.Steps.{
  idle, Reach, World, enter, stop_for, resume, set_at, step, begins, later,
}
use blueboat_cpp.GameLock.{
  end_wait, begin_wait, done, misused, is_undefined, lock_mutex, owns_at, set_owns_at, construct,
  destruct, current_lock, unlock, relock,
}
use blueboat_cpp.GameLock.Exclusion.{is_in_game_unique, is_in_game, calls_are_right, blocked-owner}
use blueboat_cpp.Base.{ℕ, ◌≡◌, refl, ◌≢◌, ◌↔◌, true, false, none, some}

abbrev entered : World
entered = record {
  mutex = some 0;
  thread = set_at (λ i. idle) 0 (guarded true);
  waits = set_at (λ i. false) 0 false;
}

first_enters : Reach entered
unfolding construct lock_mutex
first_enters = later begins (step 0 enter refl refl)

abbrev swapped : World
swapped = record {
  mutex = some 1;
  thread = set_at (set_at entered.thread 0 (guarded false)) 1 (guarded true);
  waits = set_at (set_at entered.waits 0 true) 1 false;
}

second_enters : Reach swapped
unfolding construct lock_mutex begin_wait current_lock unlock owns_at set_owns_at
second_enters = later (later first_enters (step 0 stop_for refl refl)) (step 1 enter refl refl)

is_in_game_unique_example : ◌≡◌ {A = ℕ} 1 1
is_in_game_unique_example = is_in_game_unique second_enters 1 1 refl refl

calls_are_right_example :
    (swapped.waits 0 ≡ false → begin_wait swapped.mutex (swapped.thread 0) ≢ misused)
    × (swapped.waits 0 ≡ true → end_wait 0 swapped.mutex (swapped.thread 0) ≢ misused)
    × (swapped.waits 0 ≡ false
        → (construct 0 swapped.mutex (swapped.thread 0) ≡ is_undefined)
          ↔ (is_in_game swapped 0 ≡ true))
calls_are_right_example = calls_are_right second_enters 0

blocked-owner_example :
    (j : ℕ) × (j ≢ 0)
    × (is_in_game swapped j ≡ true)
    × (swapped.waits j ≡ false)
    × (destruct swapped.mutex (swapped.thread j) ≡ done (none, idle))
unfolding end_wait current_lock relock owns_at lock_mutex
blocked-owner_example = blocked-owner second_enters 0 resume refl refl
