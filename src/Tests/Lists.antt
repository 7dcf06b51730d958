-- ===== src/Tests/Lists.antt =====
-- Timers.
use blueboat_cpp.Scheduler.Cancelled.{history, starts, goes_on, history-clear, Op}
use blueboat_cpp.Scheduler.{Scheduler, Task, clear}
use blueboat_cpp.Base.{ℕ, ◌≡◌, ◌≢◌, ◌⊎◌, false, none, some, List, [], ◌∷◌, All}

abbrev late : Task ℕ
late = record { due = 30; callback = 1; handle = 0 }

abbrev early : Task ℕ
early = record { due = 20; callback = 2; handle = 1 }

abbrev timers : Scheduler ℕ
timers = record { tasks = late ∷ early ∷ []; cancelled = λ h. false; next_handle = 2 }

abbrev later_ops : List (Op ℕ)
later_ops = goes_on 25 ∷ starts 25 5 7 ∷ goes_on 40 ∷ goes_on 40 ∷ goes_on 40 ∷ []

history-clear_example :
    All (λ t. t.handle ≢ 1) (history later_ops none (clear (some 1) timers))
    × ((t : Task ℕ)
        → (history later_ops (some t) (clear (some 1) timers) ≡ [])
          ⊎ ((ts : List (Task ℕ)) × (history later_ops (some t) (clear (some 1) timers) ≡ t ∷ ts)
              × All (λ u. u.handle ≢ 1) ts))
history-clear_example = history-clear later_ops 1 timers
