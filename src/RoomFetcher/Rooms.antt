-- ===== src/RoomFetcher/Rooms.antt =====
-- A room's snapshot through the store.
use blueboat_cpp.Base.{
  ℕ, ◌+◌, ◌≤◌, ◌≡◌, inl, inr, false, ◌++◌, arith, ltb, if◌then◌else◌, Bool-cases, Bytes, bytes_eq,
  bytes_eq-append, ok,
}
use blueboat_cpp.Json.{Json, ObjectLaws}
use blueboat_cpp.Snapshot.{RoomSnapshot, snapshot_to_json}
use blueboat_cpp.Storage.{Storage, three_hours}
use blueboat_cpp.Storage.Expiry.{get-set}
use blueboat_cpp.Protocol.{room_prefix}
use blueboat_cpp.Snapshot.RoundTrip.{snapshot_from_json-snapshot_to_json}
use blueboat_cpp.RoomFetcher.{find_room_by_id, add_room, set_room_metadata}

not_late : (now later : ℕ) → later ≤ now + three_hours → ltb (now + three_hours) later ≡ false
not_late now later h = ground arith

module _ (json : Json) (laws : ObjectLaws json) where
  open json use {Value}

  -- The text of the snapshot parses to what was dumped. Dumping fails on a string that is no UTF-8.
  pub record IsStorable (room : RoomSnapshot Value) : Type 0 where
    pub text : Bytes
    pub dumped : json.dump (snapshot_to_json json room) ≡ ok text
    pub parsed : json.parse text ≡ ok (snapshot_to_json json room)

  -- With JSON objects as documented, adding a room whose snapshot can be dumped and parsed
  -- succeeds, and any lookup within three hours finds exactly that snapshot under its id, and under
  -- every other id what was there before.
  pub find_room_by_id-add_room :
      (room : RoomSnapshot Value) (now later : ℕ) (id : Bytes) (st : Storage)
      → IsStorable room
      → later ≤ now + three_hours
      → ((add_room json now room st).0 ≡ ok tt)
        × (find_room_by_id json later id (add_room json now room st).1
            ≡ (if bytes_eq room.id id then ok room else find_room_by_id json later id st))
  unfolding add_room find_room_by_id
  find_room_by_id-add_room room now later id st w h = (
    rw w.dumped,
    rw
        (
          w.dumped,
          get-set now later (room_prefix ++ room.id) (room_prefix ++ id) w.text false st,
          bytes_eq-append room_prefix room.id id,
        )
        (elim (Bool-cases (bytes_eq room.id id)) [
          | inl same ↦
              rw (same, not_late now later h, w.parsed)
                (snapshot_from_json-snapshot_to_json json laws room)
          | inr other ↦ rw other
        ]),
  )

  -- With JSON objects as documented, changing the metadata of a room that is in the store under its
  -- own id, where the new snapshot can be dumped and parsed, succeeds, and a lookup within three
  -- hours finds the room with the new metadata and all else as it was; other rooms are as before.
  pub find_room_by_id-set_room_metadata :
      (room : RoomSnapshot Value) (now later : ℕ) (m : Value) (id : Bytes) (st : Storage)
      → find_room_by_id json now room.id st ≡ ok room
      → IsStorable (record room { metadata = m })
      → later ≤ now + three_hours
      → ((set_room_metadata json now room.id m st).0 ≡ ok tt)
        × (find_room_by_id json later id (set_room_metadata json now room.id m st).1 ≡ (
            if bytes_eq room.id id
            then ok (record room { metadata = m })
            else find_room_by_id json later id st))
  unfolding set_room_metadata
  find_room_by_id-set_room_metadata room now later m id st e w h =
      rw e (find_room_by_id-add_room (record room { metadata = m }) now later id st w h)
