-- ===== src/Scheduler/Once.antt =====
-- No timer is called twice, and none behind the end.
use blueboat_cpp.Scheduler.Worker.{
  Worker, add_call, Happening, awake, sets, cancels, ends, wake, stop, happen, work,
}
use blueboat_cpp.Scheduler.{
  turn, Scheduler, Task, is_due_at, take_next, set_timeout, least_due, choose, clear,
}
use blueboat_cpp.Base.{
  ℕ, ◌+◌, ◌≤◌, ◌≡◌, refl, ap, ◌∙◌, inl, inr, true, false, Option, none, some, List, [], ◌∷◌, ◌++◌,
  arith, ltb, ◌==◌, if◌then◌else◌, Bool-cases, find_if, erase_first,
}

module _ {ℓ} {C : Type ℓ} where
  -- how many tasks have the handle
  abbrev pub count : ℕ → List (Task C) → ℕ
  count h [] = 0
  count h (t ∷ ts) = (if t.handle == h then 1 else 0) + count h ts

  abbrev pub started : Worker C
  started = record {
    scheduler = record { tasks = []; cancelled = λ h. false; next_handle = 0 };
    stopping = false;
    called = [];
  }

  abbrev one_if : ℕ → Task C → ℕ
  one_if h t = if t.handle == h then 1 else 0

  count-append : (h : ℕ) (ts us : List (Task C)) → count h (ts ++ us) ≡ count h ts + count h us
  count-append h [] us = omega arith
  count-append h (t ∷ ts) us = omega (arith, count-append h ts us)

  count-erase :
      (h m : ℕ) (ts : List (Task C)) (t : Task C)
      → find_if (is_due_at m) ts ≡ some t
      → count h ts ≡ one_if h t + count h (erase_first (is_due_at m) ts)
  count-erase h m [] t e = cc
  count-erase h m (x ∷ ts) t e = ground (arith, count-erase h m ts t)

  -- Each handle that was given out is with one task at most, waiting or called, and no other is.
  abbrev AtMostOnce : Worker C → Type 0
  AtMostOnce w =
      (h : ℕ)
      → (count h w.scheduler.tasks + count h w.called ≤ 1)
        × (w.scheduler.next_handle ≤ h → count h w.scheduler.tasks + count h w.called ≡ 0)

  -- A round keeps every task, or calls or drops one.
  take_next-count :
      (h m : ℕ) (s : Scheduler C) (o : Option (Task C)) (called : List (Task C))
      → find_if (is_due_at m) s.tasks ≡ o
      → count h (take_next s m o).1.tasks + count h (add_call (take_next s m o).0 called)
        ≤ count h s.tasks + count h called
  take_next-count h m s none called e = omega arith
  take_next-count h m s (some t) called e = elim (Bool-cases (s.cancelled t.handle)) [
    | inl cancelled ↦ rw cancelled (omega (arith, count-erase h m s.tasks t e))
    | inr due ↦ rw due (omega (arith, count-erase h m s.tasks t e))
  ]

  choose-count :
      (h now : ℕ) (s : Scheduler C) (ts called : List (Task C))
      → count h (choose now s ts).1.tasks + count h (add_call (choose now s ts).0 called)
        ≤ count h s.tasks + count h called
  choose-count h now s [] called = omega arith
  choose-count h now s (t ∷ ts) called =
      let m = least_due t.due ts in
      elim (Bool-cases (ltb now m)) [
        | inl early ↦ rw early (omega arith)
        | inr late ↦ rw late (take_next-count h m s (find_if (is_due_at m) s.tasks) called refl)
      ]

  take_next-handle :
      (m : ℕ) (s : Scheduler C) (o : Option (Task C))
      → (take_next s m o).1.next_handle ≡ s.next_handle
  take_next-handle m s none = refl
  take_next-handle m s (some t) = ground arith

  choose-handle :
      (now : ℕ) (s : Scheduler C) (ts : List (Task C))
      → (choose now s ts).1.next_handle ≡ s.next_handle
  choose-handle now s [] = refl
  choose-handle now s (t ∷ ts) =
      let m = least_due t.due ts in
      elim (Bool-cases (ltb now m)) [
        | inl early ↦ rw early refl
        | inr late ↦ rw late (take_next-handle m s (find_if (is_due_at m) s.tasks))
      ]

  wake-AtMostOnce : (now : ℕ) (w : Worker C) → AtMostOnce w → AtMostOnce (wake now w)
  unfolding wake turn
  wake-AtMostOnce now w once h = elim (Bool-cases w.stopping) [
    | inl over ↦ rw over (once h)
    | inr on ↦
        let fewer = choose-count h now w.scheduler w.scheduler.tasks w.called in
        let same = choose-handle now w.scheduler w.scheduler.tasks in
        rw on (
          omega (arith, fewer, (once h).0),
          λ new. omega (arith, fewer, same, (once h).1 (omega (arith, same, new)), new),
        )
  ]

  sets-AtMostOnce :
      (now delay : ℕ) (c : C) (w : Worker C)
      → AtMostOnce w
      → AtMostOnce (happen (sets now delay c) w)
  unfolding happen set_timeout
  sets-AtMostOnce now delay c w once h =
      let n = w.scheduler.next_handle in
      let added =
        count-append h w.scheduler.tasks
          (record { due = now + delay; callback = c; handle = n } ∷ []) in
      elim (Bool-cases (n == h)) [
        | inl mine ↦
            let none_yet = (once h).1 (ground arith) in
            (omega (arith, rw mine at added, none_yet), λ new. ground arith)
        | inr other ↦ (
          omega (arith, rw other at added, (once h).0),
          λ new. omega (arith, rw other at added, (once h).1 (omega (arith, new))),
        )
      ]

  happen-AtMostOnce : (e : Happening C) (w : Worker C) → AtMostOnce w → AtMostOnce (happen e w)
  unfolding happen stop clear
  happen-AtMostOnce (awake now) w once = wake-AtMostOnce now w once
  happen-AtMostOnce (sets now delay c) w once = sets-AtMostOnce now delay c w once
  happen-AtMostOnce (cancels none) w once = once
  happen-AtMostOnce (cancels (some h)) w once = once
  happen-AtMostOnce ends w once = once

  work-AtMostOnce : (es : List (Happening C)) (w : Worker C) → AtMostOnce w → AtMostOnce (work es w)
  unfolding work
  work-AtMostOnce [] w once = once
  work-AtMostOnce (e ∷ es) w once = work-AtMostOnce es (happen e w) (happen-AtMostOnce e w once)

  abbrev woken : ℕ → Worker C → Worker C
  woken now w = record w {
    scheduler = (turn now w.scheduler).1;
    called = add_call (turn now w.scheduler).0 w.called;
  }

  -- Behind the end nothing is called.
  happen-stopping :
      (e : Happening C) (w : Worker C)
      → w.stopping ≡ true
      → ((happen e w).stopping ≡ true) × ((happen e w).called ≡ w.called)
  unfolding happen stop wake
  happen-stopping (awake now) w over = rw (ap (λ b. if b then w else woken now w) over) (over, refl)
  happen-stopping (sets now delay c) w over = (over, refl)
  happen-stopping (cancels h) w over = (over, refl)
  happen-stopping ends w over = (refl, refl)

  work-stopping :
      (es : List (Happening C)) (w : Worker C) → w.stopping ≡ true → (work es w).called ≡ w.called
  unfolding work
  work-stopping [] w over = refl
  work-stopping (e ∷ es) w over =
      let next = happen-stopping e w over in work-stopping es (happen e w) next.0 ∙ next.1

  work-append :
      (es fs : List (Happening C)) (w : Worker C) → work (es ++ fs) w ≡ work fs (work es w)
  unfolding work
  work-append [] fs w = refl
  work-append (e ∷ es) fs w = work-append es fs (happen e w)

  -- Whatever threads set and cancel, in any order and at any times, and whenever the worker comes
  -- round: no timer's callback is called twice, and behind the end of the process none is called.
  pub work_once :
      (es later : List (Happening C)) (h : ℕ)
      → (count h (work es started).called ≤ 1)
        × ((work (es ++ ends ∷ later) started).called ≡ (work es started).called)
  unfolding work happen stop
  work_once es later h = (
    omega (arith, (work-AtMostOnce es started (λ g. (omega arith, λ n. omega arith)) h).0),
    ap (λ w. w.called) (work-append es (ends ∷ later) started)
        ∙ work-stopping later (stop (work es started)) refl,
  )
