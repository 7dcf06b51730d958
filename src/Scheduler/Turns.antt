-- ===== src/Scheduler/Turns.antt =====
-- What the worker does in one round.
use blueboat_cpp.Base.{
  ℕ, suc, ◌≤◌, ◌≡◌, refl, ◌≢◌, inl, inr, false, Option, none, some, List, [], ◌∷◌, arith, ltb,
  if◌then◌else◌, ltb→lt, Bool-cases, Option-cases, length, find_if, erase_first,
}
use blueboat_cpp.Scheduler.{Task, Scheduler, least_due, is_due_at, run, turn, take_next, choose}

not_late : (now m : ℕ) → ltb now m ≡ false → m ≤ now
not_late now m h = ground arith

module _ {ℓ} {C : Type ℓ} where
  abbrev pub NoneBefore : ℕ → List (Task C) → Type 0
  NoneBefore m [] = Unit
  NoneBefore m (t ∷ ts) = (m ≤ t.due) × NoneBefore m ts

  NoneBefore-mono : {m n : ℕ} (ts : List (Task C)) → n ≤ m → NoneBefore m ts → NoneBefore n ts
  NoneBefore-mono [] h b = tt
  NoneBefore-mono (t ∷ ts) h b = (omega arith, NoneBefore-mono ts h b.1)

  pub least_due-le : (m : ℕ) (ts : List (Task C)) → least_due m ts ≤ m
  unfolding least_due
  least_due-le m [] = omega arith
  least_due-le m (t ∷ ts) = ground (arith, least_due-le m ts, least_due-le t.due ts)

  pub least_due-NoneBefore : (m : ℕ) (ts : List (Task C)) → NoneBefore (least_due m ts) ts
  unfolding least_due
  least_due-NoneBefore m [] = tt
  least_due-NoneBefore m (t ∷ ts) =
      let k = if ltb t.due m then t.due else m in
      (ground (arith, least_due-le k ts), least_due-NoneBefore k ts)

  -- The least due time is the first bound or that of a task in the list.
  least_due_found :
      (m : ℕ) (ts : List (Task C))
      → least_due m ts ≢ m
      → find_if (is_due_at (least_due m ts)) ts ≢ none
  unfolding least_due
  least_due_found m [] h e = h refl
  least_due_found m (t ∷ ts) h e =
      let k = if ltb t.due m then t.due else m in
      ground (arith, least_due_found k ts, least_due-le k ts)

  find_if-due :
      (m : ℕ) (ts : List (Task C)) (t : Task C) → find_if (is_due_at m) ts ≡ some t → t.due ≡ m
  find_if-due m [] t e = cc
  find_if-due m (x ∷ ts) t e = ground (arith, find_if-due m ts t)

  pub length-erase_first :
      (m : ℕ) (ts : List (Task C)) (t : Task C)
      → find_if (is_due_at m) ts ≡ some t
      → length ts ≡ suc (length (erase_first (is_due_at m) ts))
  length-erase_first m [] t e = cc
  length-erase_first m (x ∷ ts) t e = ground (arith, length-erase_first m ts t)

  take_next-run :
      (s : Scheduler C) (m : ℕ) (o : Option (Task C)) (t : Task C)
      → (take_next s m o).0 ≡ run t
      → (o ≡ some t)
        × (s.cancelled t.handle ≡ false)
        × ((take_next s m o).1.tasks ≡ erase_first (is_due_at m) s.tasks)
  take_next-run s m none t e = cc
  take_next-run s m (some u) t e = ground arith

  choose-run :
      (now : ℕ) (s : Scheduler C) (ts : List (Task C)) (t : Task C)
      → s.tasks ≡ ts
      → (choose now s ts).0 ≡ run t
      → (t.due ≤ now)
        × (s.cancelled t.handle ≡ false)
        × NoneBefore t.due ts
        × (length ts ≡ suc (length (choose now s ts).1.tasks))
  choose-run now s [] t h e = cc
  choose-run now s (x ∷ ts) t h e =
      let m = least_due x.due ts in
      elim (Bool-cases (ltb now m)) [
        | inl late ↦ ground arith
        | inr due ↦
            let taken = take_next-run s m (find_if (is_due_at m) s.tasks) t (rw due at e) in
            let first = rw h at taken.0 in
            let at_m = find_if-due m (x ∷ ts) t first in
            (
              omega (arith, at_m, not_late now m due),
              taken.1,
              NoneBefore-mono {m = m} {n = t.due} (x ∷ ts) (omega (arith, at_m))
                  (least_due-le x.due ts, least_due-NoneBefore x.due ts),
              rw (due, taken.2, h) (length-erase_first m (x ∷ ts) t first),
            )
      ]

  -- Some task has the least due time.
  pub least_due-find_if :
      (t : Task C) (ts : List (Task C)) → find_if (is_due_at (least_due t.due ts)) (t ∷ ts) ≢ none
  least_due-find_if t ts e = ground (arith, least_due_found t.due ts)

  take_next-length :
      (s : Scheduler C) (m : ℕ) (u : Task C)
      → find_if (is_due_at m) s.tasks ≡ some u
      → length (take_next s m (some u)).1.tasks ≢ length s.tasks
  take_next-length s m u e h = ground (arith, length-erase_first m s.tasks u e)

  choose-length :
      (now : ℕ) (s : Scheduler C) (ts : List (Task C))
      → s.tasks ≡ ts
      → length (choose now s ts).1.tasks ≡ length s.tasks
      → NoneBefore (suc now) ts
  choose-length now s [] h e = tt
  choose-length now s (x ∷ ts) h e =
      let m = least_due x.due ts in
      elim (Bool-cases (ltb now m)) [
        | inl late ↦
            NoneBefore-mono {m = m} {n = suc now} (x ∷ ts) (ltb→lt now m late)
              (least_due-le x.due ts, least_due-NoneBefore x.due ts)
        | inr due ↦ elim (Option-cases (find_if (is_due_at m) s.tasks)) [
          | inl missing ↦ absurd (least_due-find_if x ts (rw h at missing))
          | inr (u, found) ↦ absurd (take_next-length s m u found (rw (due, found) at e))
        ]
      ]

  -- A round that takes no task off the list found no task due.
  pub turn-length :
      (now : ℕ) (s : Scheduler C)
      → length (turn now s).1.tasks ≡ length s.tasks
      → NoneBefore (suc now) s.tasks
  unfolding turn
  turn-length now s e = choose-length now s s.tasks refl e

  -- A round that runs a callback runs that of a task that is due and not cancelled, no other task
  -- is due before it, and one task is taken off the list.
  pub turn-run :
      (now : ℕ) (s : Scheduler C) (t : Task C)
      → (turn now s).0 ≡ run t
      → (t.due ≤ now)
        × (s.cancelled t.handle ≡ false)
        × NoneBefore t.due s.tasks
        × (length s.tasks ≡ suc (length (turn now s).1.tasks))
  unfolding turn
  turn-run now s t e = choose-run now s s.tasks t refl e
