-- ===== src/Tests/Stores.antt =====
-- The store, the list of rooms and the game values, on a store with a room and two other entries.
use blueboat_cpp.RoomFetcher.Rooms.{find_room_by_id-add_room}
use blueboat_cpp.Json.Sample.{
  fields, sample, write, Tree, num, str, obj, stop, field, items, write_items, write_fields, read,
  sample_laws,
}
use blueboat_cpp.RoomFetcher.{add_room, find_room_by_id}
use blueboat_cpp.Protocol.{room_prefix}
use blueboat_cpp.Storage.{Storage}
use blueboat_cpp.Snapshot.{snapshot_to_json, RoomSnapshot, SimpleClient, client_to_json}
use blueboat_cpp.Base.{◌≡◌, refl, none, some, [], ◌∷◌, ◌++◌, arith, codes, bytes_eq, ok}
use blueboat_cpp.RoomFetcher.Rooms

abbrev board : SimpleClient
board = record { id = codes "c1"; session_id = codes "s1"; origin = []; ip = codes "::1" }

abbrev chess : RoomSnapshot Tree
chess = record {
  id = codes "r1";
  type = codes "chess";
  owner = board;
  metadata = str (codes "open");
  created_at = 7;
}

abbrev two_entries : Storage
two_entries =
    (codes "a", record { value = 1 ∷ []; expires_at = some 10 })
    ∷ (room_prefix ++ codes "r0", record { value = 2 ∷ []; expires_at = none })
    ∷ []

chess-IsStorable : Rooms.IsStorable sample sample_laws chess
unfolding snapshot_to_json client_to_json write write_fields write_items read fields items
chess-IsStorable = record {
  text = write (snapshot_to_json sample chess);
  dumped = refl;
  parsed = refl;
}

find_room_by_id-add_room_example :
    ((add_room sample 5 chess two_entries).0 ≡ ok tt)
    × (find_room_by_id sample 6 (codes "r1") (add_room sample 5 chess two_entries).1 ≡ ok chess)
unfolding bytes_eq
find_room_by_id-add_room_example =
    find_room_by_id-add_room sample sample_laws chess 5 6 (codes "r1") two_entries chess-IsStorable
      (omega arith)

abbrev values : Tree
values = obj (field (codes "round") (num 2) stop)
