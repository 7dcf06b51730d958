-- ===== src/GameLock/Shape.antt =====
-- The three forms that a thread has, and that every step keeps them.
use blueboat_cpp.GameLock.Steps.{
  enter, Action, idle, leave, stop_for, resume, perform, is_due, waits_after,
}
use blueboat_cpp.GameLock.{
  Thread, Outcome, done, blocks, misused, is_undefined, lock_mutex, owns_at, set_owns_at, construct,
  destruct, current_lock, unlock, relock, begin_wait, end_wait,
}
use blueboat_cpp.Base.{
  ℕ, ◌≡◌, refl, sym, ◌≢◌, ◌⊎◌, inl, inr, Bool, true, false, Option, none, some, [], ◌∷◌, arith,
  ◌==◌, Bool-cases,
}

abbrev pub holds : ℕ → Option ℕ → Bool
holds i none = false
holds i (some j) = j == i

abbrev pub guarded : Bool → Thread
guarded b = record {
  guards = record { lock_ = b; previous_ = none } ∷ [];
  current_lock_slot = some 0;
}

-- Outside of every guard; in one guard that owns the mutex; waiting in one guard that does not.
pub data IsShaped : Thread → Bool → Bool → Type 0 where
  outside : (w : Bool) → IsShaped idle w false
  inside : IsShaped (guarded true) false true
  paused : IsShaped (guarded false) true false

-- A step by a thread whose form is known does what it should: it keeps the form, leaves the other
-- threads' hold of the mutex, never misuses a lock, and has no defined outcome only where the
-- thread enters a guard inside a guard, or leaves one outside of all guards.
abbrev pub IsRight : Action → ℕ → Option ℕ → Thread → Outcome (Option ℕ × Thread) → Type 0
IsRight a i m th (done (m', th')) =
    IsShaped th' (waits_after a) (holds i m') × ((u : ℕ) → u ≢ i → holds u m' ≡ holds u m)
IsRight a i m th blocks = Unit
IsRight a i m th misused = ⊥
IsRight a i m th is_undefined = ((a ≡ enter) × (holds i m ≡ true)) ⊎ ((a ≡ leave) × (th ≡ idle))

holds-some : (i j : ℕ) → holds i (some j) ≡ true → j ≡ i
holds-some i j e = ground arith

some-others : (i : ℕ) → (u : ℕ) → u ≢ i → holds u (some i) ≡ false
some-others i u n = ground arith

some-held : (i : ℕ) → holds i (some i) ≡ true
some-held i = ground arith

-- Others hold nothing that a thread holds.
held-others : (i : ℕ) (m : Option ℕ) → holds i m ≡ true → (u : ℕ) → u ≢ i → false ≡ holds u m
held-others i none e u n = refl
held-others i (some j) e u n = ground arith

shaped : (th : Thread) (w b b' : Bool) → IsShaped th w b → b ≡ b' → IsShaped th w b'
shaped th w b b' h e = rw (sym e) h

enter-IsRight : (i : ℕ) (m : Option ℕ) → IsRight enter i m idle (construct i m idle)
unfolding construct lock_mutex
enter-IsRight i none =
    (shaped (guarded true) false true (holds i (some i)) inside (sym (some-held i)), some-others i)
enter-IsRight i (some j) = elim (Bool-cases (j == i)) [
  | inl mine ↦ rw mine (inl (refl, mine))
  | inr other ↦ rw other tt
]

reenter-IsRight :
    (i : ℕ) (m : Option ℕ)
    → true ≡ holds i m
    → IsRight enter i m (guarded true) (construct i m (guarded true))
unfolding construct lock_mutex
reenter-IsRight i none e = ground arith
reenter-IsRight i (some j) e = rw (sym e) (inl (refl, sym e))

resume-IsRight :
    (i : ℕ) (m : Option ℕ)
    → false ≡ holds i m
    → IsRight resume i m (guarded false) (end_wait i m (guarded false))
unfolding end_wait current_lock relock lock_mutex owns_at set_owns_at
resume-IsRight i none e =
    (shaped (guarded true) false true (holds i (some i)) inside (sym (some-held i)), some-others i)
resume-IsRight i (some j) e = rw (sym e) tt

pub perform-IsRight :
    (a : Action) (i : ℕ) (m : Option ℕ) {th : Thread} {w b : Bool}
    → IsShaped th w b
    → b ≡ holds i m
    → is_due a w ≡ true
    → IsRight a i m th (perform a i m th)
unfolding destruct begin_wait end_wait current_lock unlock owns_at set_owns_at
perform-IsRight enter i m (outside w) e d = enter-IsRight i m
perform-IsRight enter i m inside e d = reenter-IsRight i m e
perform-IsRight enter i m paused e d = ground arith
perform-IsRight leave i m (outside w) e d = inr (refl, refl)
perform-IsRight leave i m inside e d = (outside false, held-others i m (sym e))
perform-IsRight leave i m paused e d = ground arith
perform-IsRight stop_for i m (outside w) e d =
    (shaped idle true false (holds i m) (outside true) e, λ u n. refl)
perform-IsRight stop_for i m inside e d = (paused, held-others i m (sym e))
perform-IsRight stop_for i m paused e d = ground arith
perform-IsRight resume i m (outside w) e d =
    (shaped idle false false (holds i m) (outside false) e, λ u n. refl)
perform-IsRight resume i m inside e d = ground arith
perform-IsRight resume i m paused e d = resume-IsRight i m e
