-- ===== src/Tests/Typing.antt =====
-- A client in a room, at which a line and "quit" are typed; and a timer that is set and cancelled.
use blueboat_cpp.Tests.Frames.{codec}
use blueboat_cpp.Tests.Clients.{guest}
use blueboat_cpp.Scheduler.Worker.{work, Happening, awake, sets, ends}
use blueboat_cpp.ChatClient.{read_lines, line}
use blueboat_cpp.Json.Sample.{Tree, num, sample}
use blueboat_cpp.ChatClient.Talk
use blueboat_cpp.Scheduler.Once.{work_once, count, started}
use blueboat_cpp.Client.State.{Client}
use blueboat_cpp.Client.Connection.{disconnect}
use blueboat_cpp.Base.{◌≤◌, ◌≡◌, refl, true, some, List, [], ◌∷◌, ◌++◌, Bytes, codes, bytes_eq}

abbrev member : Client Tree
member = record guest {
  heap = record { id = codes "r1"; joined = true; initial_join_options = num 7 } ∷ [];
}

read_lines-sent_example :
    read_lines sample codec
      (line (codes "hi") ∷ line (codes "quit") ∷ line (codes "late") ∷ [])
      (record { client = member; room = some 0; not_joined = 0 })
    ≡ record {
      client =
          disconnect
            (record member { sent = Talk.frames sample codec (codes "r1") (codes "hi" ∷ []) });
      room = some 0;
      not_joined = 0;
    }
unfolding bytes_eq
read_lines-sent_example =
    Talk.read_lines-sent sample codec 0 0 (codes "hi" ∷ []) (codes "late" ∷ []) member refl refl
      (refl, tt)

abbrev busy : List (Happening Bytes)
busy = sets 0 5 (codes "a") ∷ awake 6 ∷ awake 7 ∷ []

work_once_example :
    (count 0 (work busy started).called ≤ 1)
    × ((work (busy ++ ends ∷ awake 9 ∷ []) started).called ≡ (work busy started).called)
work_once_example = work_once busy (awake 9 ∷ []) 0
