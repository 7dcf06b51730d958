-- ===== src/Scheduler/Cancelled.antt =====
-- A timer that was cleared, through any later calls and rounds.
use blueboat_cpp.Base.{
  ℕ, ◌≡◌, refl, ap, ◌≢◌, ◌⊎◌, inl, inr, true, Option, none, some, List, [], ◌∷◌, arith, ltb,
  Bool-cases, All,
}
use blueboat_cpp.Scheduler.{
  Task, Scheduler, Turn, run, turn, set_timeout, clear, least_due, idle, wait_until, skip,
  take_next, choose,
}
use blueboat_cpp.Scheduler.Turns.{turn-run}

-- Another thread sets a timer or clears one; or the worker goes on, at this time: it calls the
-- callback that it has given up the lock for, where there is one, and else makes a round.
pub data Op {ℓ} (C : Type ℓ) : Type ℓ where
  starts : ℕ → ℕ → C → Op C
  clears : Option ℕ → Op C
  goes_on : ℕ → Op C

module _ {ℓ} {C : Type ℓ} where
  -- what the worker is about to call behind a round
  abbrev pub about_to_call : Turn C → Option (Task C)
  about_to_call (run t) = some t
  about_to_call idle = none
  about_to_call (wait_until m) = none
  about_to_call (skip t) = none

  -- the tasks whose callbacks are called, in order
  unfoldable pub history : List (Op C) → Option (Task C) → Scheduler C → List (Task C)
  unfolding set_timeout clear turn
  history [] next s = []
  history (starts now delay c ∷ ops) next s = history ops next (set_timeout now delay c s).1
  history (clears h ∷ ops) next s = history ops next (clear h s)
  history (goes_on now ∷ ops) (some t) s = t ∷ history ops none s
  history (goes_on now ∷ ops) none s = history ops (about_to_call (turn now s).0) (turn now s).1

  cancelled-clear :
      (g : Option ℕ) (h : ℕ) (s : Scheduler C)
      → s.cancelled h ≡ true
      → (clear g s).cancelled h ≡ true
  unfolding clear
  cancelled-clear none h s c = c
  cancelled-clear (some g) h s c = ground arith

  cancelled-take_next :
      (s : Scheduler C) (m : ℕ) (o : Option (Task C)) → (take_next s m o).1.cancelled ≡ s.cancelled
  cancelled-take_next s m none = refl
  cancelled-take_next s m (some t) = ground arith

  cancelled-choose :
      (now : ℕ) (s : Scheduler C) (ts : List (Task C)) → (choose now s ts).1.cancelled ≡ s.cancelled
  cancelled-choose now s [] = refl
  cancelled-choose now s (t ∷ ts) = elim (Bool-cases (ltb now (least_due t.due ts))) [
    | inl late ↦ rw late
    | inr due ↦ rw due (cancelled-take_next s (least_due t.due ts) _)
  ]

  cancelled-turn : (now : ℕ) (s : Scheduler C) → (turn now s).1.cancelled ≡ s.cancelled
  unfolding turn
  cancelled-turn now s = cancelled-choose now s s.tasks

  pub cleared : (h : ℕ) (s : Scheduler C) → (clear (some h) s).cancelled h ≡ true
  unfolding clear
  cleared h s = ground arith

  abbrev IsNot : ℕ → Option (Task C) → Type 0
  IsNot h none = Unit
  IsNot h (some t) = t.handle ≢ h

  about_to_call-IsNot :
      (now h : ℕ) (s : Scheduler C) (r : Turn C)
      → s.cancelled h ≡ true
      → (turn now s).0 ≡ r
      → IsNot h (about_to_call r)
  about_to_call-IsNot now h s (run t) c e =
      λ same. cc (c, (turn-run now s t e).1, ap s.cancelled same)
  about_to_call-IsNot now h s idle c e = tt
  about_to_call-IsNot now h s (wait_until m) c e = tt
  about_to_call-IsNot now h s (skip t) c e = tt

  history-cancelled :
      (ops : List (Op C)) (h : ℕ) (next : Option (Task C)) (s : Scheduler C)
      → s.cancelled h ≡ true
      → IsNot h next
      → All (λ t. t.handle ≢ h) (history ops next s)
  unfolding history set_timeout
  history-cancelled [] h next s c n = tt
  history-cancelled (starts now delay x ∷ ops) h next s c n =
      history-cancelled ops h next (set_timeout now delay x s).1 c n
  history-cancelled (clears g ∷ ops) h next s c n =
      history-cancelled ops h next (clear g s) (cancelled-clear g h s c) n
  history-cancelled (goes_on now ∷ ops) h (some t) s c n = (n, history-cancelled ops h none s c tt)
  history-cancelled (goes_on now ∷ ops) h none s c n =
      history-cancelled ops h (about_to_call (turn now s).0) (turn now s).1
        (rw (cancelled-turn now s) c) (about_to_call-IsNot now h s (turn now s).0 c refl)

  history-about :
      (ops : List (Op C)) (h : ℕ) (t : Task C) (s : Scheduler C)
      → s.cancelled h ≡ true
      → (history ops (some t) s ≡ [])
        ⊎ ((ts : List (Task C)) × (history ops (some t) s ≡ t ∷ ts) × All (λ u. u.handle ≢ h) ts)
  unfolding history set_timeout
  history-about [] h t s c = inl refl
  history-about (starts now delay x ∷ ops) h t s c =
      history-about ops h t (set_timeout now delay x s).1 c
  history-about (clears g ∷ ops) h t s c =
      history-about ops h t (clear g s) (cancelled-clear g h s c)
  history-about (goes_on now ∷ ops) h t s c =
      inr (history ops none s, refl, history-cancelled ops h none s c tt)

  -- After a timer is cleared, whatever is started, cleared and waited for later: its callback is
  -- never called, where the worker is not about to call one; and where it is about to, having found
  -- it not cancelled and given up the lock, that callback is the first that is called, if any is,
  -- even where it is the cleared timer's, and the cleared timer's is not called behind it.
  pub history-clear :
      (ops : List (Op C)) (h : ℕ) (s : Scheduler C)
      → All (λ t. t.handle ≢ h) (history ops none (clear (some h) s))
        × ((t : Task C)
            → (history ops (some t) (clear (some h) s) ≡ [])
              ⊎ ((ts : List (Task C)) × (history ops (some t) (clear (some h) s) ≡ t ∷ ts)
                  × All (λ u. u.handle ≢ h) ts))
  history-clear ops h s = (
    history-cancelled ops h none (clear (some h) s) (cleared h s) tt,
    λ t. history-about ops h t (clear (some h) s) (cleared h s),
  )
