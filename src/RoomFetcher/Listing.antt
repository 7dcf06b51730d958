-- ===== src/RoomFetcher/Listing.antt =====
-- The ids in the list of rooms.
use blueboat_cpp.Base.{
  ℕ, ◌≡◌, false, ◌++◌, arith, if◌then◌else◌, Bytes, bytes_eq, bytes_eq-append, IsMap,
}
use blueboat_cpp.Protocol.{room_prefix}
use blueboat_cpp.Storage.{Storage}
use blueboat_cpp.Storage
use blueboat_cpp.Storage.Expiry.{get-remove}
use blueboat_cpp.Storage.Keys.{listed, listed-fetch_keys, remove-IsMap}
use blueboat_cpp.RoomFetcher.{get_list_of_rooms, remove_room}

-- In a store where each key stands once, removing a room takes its id, and no other, out of the
-- list of rooms.
listed-remove_room :
    (now : ℕ) (room_id id : Bytes) (st : Storage)
    → IsMap st
    → listed id (get_list_of_rooms now (remove_room room_id st)).0
      ≡ (if bytes_eq room_id id then false else listed id (get_list_of_rooms now st).0)
unfolding get_list_of_rooms remove_room
listed-remove_room now room_id id st m =
    rw
      (
        listed-fetch_keys now room_prefix id (Storage.remove (room_prefix ++ room_id) st)
            (remove-IsMap (room_prefix ++ room_id) st m),
        listed-fetch_keys now room_prefix id st m,
        get-remove now (room_prefix ++ room_id) (room_prefix ++ id) st,
        bytes_eq-append room_prefix room_id id,
      )
      (ground arith)
