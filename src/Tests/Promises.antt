-- ===== src/Tests/Promises.antt =====
-- The store against its promise, timers that come due, and the end of a server.
use blueboat_cpp.Scheduler.Progress.{turns, turns-run}
use blueboat_cpp.Tests.Servers.{managed}
use blueboat_cpp.Server.Host.{Host}
use blueboat_cpp.Json.Sample.{Tree}
use blueboat_cpp.Scheduler.{run, Scheduler, Task}
use blueboat_cpp.Storage.Refinement.{
  answers, StoreOp, get_op, set_op, remove_op, fetch_keys_op, promised, answers-promised,
}
use blueboat_cpp.Base.{ℕ, ◌≡◌, refl, false, none, some, List, [], ◌∷◌, arith, ◌==◌, Bytes, codes}
use mathlib.Core.List.{Memᴰ}
use mathlib.Core.List.Memᴰ.{head, tail}

abbrev ops : List (ℕ × StoreOp)
ops =
    (5, set_op (codes "room:a") (codes "v") false)
    ∷ (6, get_op (codes "room:a"))
    ∷ (7, fetch_keys_op (codes "room:"))
    ∷ (8, remove_op (codes "room:a"))
    ∷ (9, get_op (codes "room:a"))
    ∷ []

answers-promised_example : answers ops [] ≡ promised ops (λ k. none)
answers-promised_example =
    answers-promised ops
      (omega arith, (omega arith, (omega arith, (omega arith, (omega arith, tt)))))

abbrev later_task : Task Bytes
later_task = record { due = 20; callback = codes "r2"; handle = 1 }

abbrev two_tasks : Scheduler Bytes
two_tasks = record {
  tasks = record { due = 10; callback = codes "r1"; handle = 0 } ∷ later_task ∷ [];
  cancelled = λ h. h == 0;
  next_handle = 2;
}

turns-run_example : Memᴰ (run later_task) (turns (25 ∷ 30 ∷ []) two_tasks)
turns-run_example =
    turns-run (25 ∷ 30 ∷ []) two_tasks later_task (tail (head refl)) refl
      (omega arith, (omega arith, tt)) (omega arith)

abbrev running : Host Tree
running = record {
  server = managed;
  tls = false;
  listen_fd = some 4;
  shutting_down = false;
  started = [];
  shut_fds = [];
  told = [];
  woken = 0;
}
