-- ===== src/Scheduler/Progress.antt =====
-- That the worker comes to every task.
use blueboat_cpp.Scheduler.Turns.{
  NoneBefore, least_due-le, least_due-NoneBefore, length-erase_first, least_due-find_if,
}
use blueboat_cpp.Scheduler.{
  Scheduler, Task, turn, is_due_at, Turn, run, take_next, least_due, choose,
}
use blueboat_cpp.Base.{
  ℕ, suc, ◌≤◌, ◌<◌, ◌≡◌, refl, sym, ◌∙◌, ◌⊎◌, inl, inr, false, some, List, [], ◌∷◌, arith, ltb,
  Bool-cases, Option-cases, length, find_if, erase_first, All,
}
use mathlib.Core.List.{Memᴰ}
use mathlib.Core.List.Memᴰ.{head, tail}

module _ {ℓ} {C : Type ℓ} where
  -- What the rounds at these readings of the clock do.
  unfoldable pub turns : List ℕ → Scheduler C → List (Turn C)
  unfolding turn
  turns [] s = []
  turns (now ∷ nows) s = let r = turn now s in r.0 ∷ turns nows r.1

  NoneBefore-Mem :
      (m : ℕ) (ts : List (Task C)) (t : Task C) → NoneBefore m ts → Memᴰ t ts → m ≤ t.due
  NoneBefore-Mem m [] t h i = elim i [ ]
  NoneBefore-Mem m (x ∷ ts) t h (head e) = rw e h.0
  NoneBefore-Mem m (x ∷ ts) t h (tail i) = NoneBefore-Mem m ts t h.1 i

  -- A task of the list is the first with the due time, or stays when that one is taken off.
  Mem-erase_first :
      (m : ℕ) (ts : List (Task C)) (t u : Task C)
      → find_if (is_due_at m) ts ≡ some u
      → Memᴰ t ts
      → (t ≡ u) ⊎ Memᴰ t (erase_first (is_due_at m) ts)
  Mem-erase_first m [] t u e i = elim i [ ]
  Mem-erase_first m (x ∷ ts) t u e (head same) = elim (Bool-cases (is_due_at m x)) [
    | inl here ↦ inl (ground arith)
    | inr there ↦ inr (rw there (head same))
  ]
  Mem-erase_first m (x ∷ ts) t u e (tail i) = elim (Bool-cases (is_due_at m x)) [
    | inl here ↦ inr (rw here i)
    | inr there ↦ elim (Mem-erase_first m ts t u (rw there at e) i) [
      | inl same ↦ inl same
      | inr stays ↦ inr (rw there (tail stays))
    ]
  ]

  -- A round runs this task, or takes another one off.
  abbrev Nears : Task C → Scheduler C → Turn C × Scheduler C → Type ℓ
  Nears t s r =
      (r.0 ≡ run t)
      ⊎ (Memᴰ t r.1.tasks
          × (r.1.cancelled t.handle ≡ s.cancelled t.handle)
          × (suc (length r.1.tasks) ≡ length s.tasks))

  take_next-Nears :
      (s : Scheduler C) (m : ℕ) (t u : Task C)
      → find_if (is_due_at m) s.tasks ≡ some u
      → Memᴰ t s.tasks
      → s.cancelled t.handle ≡ false
      → Nears t s (take_next s m (some u))
  take_next-Nears s m t u e i live = elim (Mem-erase_first m s.tasks t u e i) [
    | inl same ↦ inl (ground arith)
    | inr stays ↦ elim (Bool-cases (s.cancelled u.handle)) [
      | inl c ↦ inr (rw c (stays, refl, ground (arith, length-erase_first m s.tasks u e)))
      | inr c ↦ inr (rw c (stays, refl, ground (arith, length-erase_first m s.tasks u e)))
    ]
  ]

  choose-Nears :
      (now : ℕ) (s : Scheduler C) (ts : List (Task C)) (t : Task C)
      → s.tasks ≡ ts
      → Memᴰ t ts
      → t.due ≤ now
      → s.cancelled t.handle ≡ false
      → Nears t s (choose now s ts)
  choose-Nears now s [] t h i due live = elim i [ ]
  choose-Nears now s (x ∷ ts) t h i due live =
      let m = least_due x.due ts in
      let all : NoneBefore m (x ∷ ts) = (least_due-le x.due ts, least_due-NoneBefore x.due ts) in
      let first = NoneBefore-Mem m (x ∷ ts) t all i in
      let not_late : ltb now m ≡ false = ground arith in
      elim (Option-cases (find_if (is_due_at m) s.tasks)) [
        | inl missing ↦ absurd (least_due-find_if x ts (rw h at missing))
        | inr (u, found) ↦ rw (not_late, found) (take_next-Nears s m t u found (rw h i) live)
      ]

  turn-Nears :
      (now : ℕ) (s : Scheduler C) (t : Task C)
      → Memᴰ t s.tasks
      → t.due ≤ now
      → s.cancelled t.handle ≡ false
      → Nears t s (turn now s)
  unfolding turn
  turn-Nears now s t i due live = choose-Nears now s s.tasks t refl i due live

  -- A task that is on the list and not cancelled is run: by as many rounds as there are tasks, if
  -- none of them comes before it is due, wherever the clock stands, and whatever the tasks are that
  -- go first.
  pub turns-run :
      (nows : List ℕ) (s : Scheduler C) (t : Task C)
      → Memᴰ t s.tasks
      → s.cancelled t.handle ≡ false
      → All (λ now. t.due ≤ now) nows
      → length s.tasks ≤ length nows
      → Memᴰ (run t) (turns nows s)
  unfolding turns
  turns-run [] s t i live due enough = absurd (omega (arith, not_empty s.tasks i))
    where
      not_empty : (ts : List (Task C)) → Memᴰ t ts → 0 < length ts
      not_empty [] i = elim i [ ]
      not_empty (x ∷ ts) i = omega arith
  turns-run (now ∷ nows) s t i live due enough = elim (turn-Nears now s t i due.0 live) [
    | inl now_run ↦ head (sym now_run)
    | inr (stays, same, one_less) ↦
        tail (turns-run nows (turn now s).1 t stays (same ∙ live) due.1 (omega (arith, one_less)))
  ]
