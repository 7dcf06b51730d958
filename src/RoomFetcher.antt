-- ===== src/RoomFetcher.antt =====
-- server/src/room_fetcher.cpp: the list of rooms, kept in the store under "room:". Each call takes
-- the clock's reading. A call that fails leaves in the store what was written before.
pub mod Rooms
pub mod Listing
use blueboat_cpp.Base.{
  ℕ, false, Option, none, some, List, [], ◌∷◌, ◌++◌, Bytes, codes, Result, ◌>>=◌, Exec, ok, throws,
}
use blueboat_cpp.Json.{Json}
use blueboat_cpp.Protocol.{room_prefix}
use blueboat_cpp.Snapshot.{RoomSnapshot, snapshot_to_json, snapshot_from_json}
use blueboat_cpp.Storage.{Storage}
use blueboat_cpp.Storage

unfoldable pub get_list_of_rooms : ℕ → Storage → List Bytes × Storage
get_list_of_rooms now st = Storage.fetch_keys now room_prefix st

abbrev no_data : Bytes → Bytes
no_data room_id = room_prefix ++ room_id ++ codes " - No data received"

module _ (json : Json) where
  open json use {Value}

  abbrev or_no_data : Bytes → Option Bytes → Result (RoomSnapshot Value)
  or_no_data room_id none = throws (no_data room_id)
  or_no_data room_id (some raw) = do v ← json.parse raw; snapshot_from_json json v

  unfoldable pub find_room_by_id : ℕ → Bytes → Storage → Result (RoomSnapshot Value)
  find_room_by_id now room_id st = or_no_data room_id (Storage.get now (room_prefix ++ room_id) st)

  abbrev keep_room :
      Result (RoomSnapshot Value) → List (RoomSnapshot Value) → List (RoomSnapshot Value)
  keep_room (ok room) rooms = room ∷ rooms
  keep_room (throws e) rooms = rooms

  -- an id whose entry is gone or does not read as a snapshot is passed over
  unfoldable pub read_rooms : ℕ → List Bytes → Storage → List (RoomSnapshot Value)
  unfolding find_room_by_id
  read_rooms now [] st = []
  read_rooms now (id ∷ ids) st = keep_room (find_room_by_id now id st) (read_rooms now ids st)

  unfoldable pub get_list_of_rooms_with_data : ℕ → Storage → List (RoomSnapshot Value) × Storage
  unfolding get_list_of_rooms read_rooms
  get_list_of_rooms_with_data now st =
      let listing = get_list_of_rooms now st in (read_rooms now listing.0 listing.1, listing.1)

  abbrev store_dump : ℕ → Bytes → Storage → Result Bytes → Result (Unit {0}) × Storage
  store_dump now key st (ok raw) = (ok tt, Storage.set now key raw false st)
  store_dump now key st (throws e) = (throws e, st)

  unfoldable pub add_room : ℕ → RoomSnapshot Value → Exec Storage (Unit {0})
  add_room now room st =
      store_dump now (room_prefix ++ room.id) st (json.dump (snapshot_to_json json room))

  abbrev store_metadata :
      ℕ → Value → Storage → Result (RoomSnapshot Value) → Result (Unit {0}) × Storage
  store_metadata now new_metadata st (throws e) = (throws e, st)
  store_metadata now new_metadata st (ok room) =
      add_room now (record room { metadata = new_metadata }) st

  unfoldable pub set_room_metadata : ℕ → Bytes → Value → Exec Storage (Unit {0})
  unfolding add_room
  set_room_metadata now room_id new_metadata st =
      store_metadata now new_metadata st (find_room_by_id now room_id st)

unfoldable pub remove_room : Bytes → Storage → Storage
remove_room room_id st = Storage.remove (room_prefix ++ room_id) st
