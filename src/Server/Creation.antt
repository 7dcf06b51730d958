-- ===== src/Server/Creation.antt =====
-- Registering room types and creating rooms.
use blueboat_cpp.Storage.{Storage}
use blueboat_cpp.Base.{
  ℕ, zero, suc, not, ◌||◌, Option, none, some, List, [], ◌++◌, if◌then◌else◌, Bytes, codes,
  is_empty, find, put, has, Result, ok, throws,
}
use blueboat_cpp.Json.{Json, object}
use blueboat_cpp.Snapshot.{SimpleClient, no_client, RoomSnapshot}
use blueboat_cpp.Storage.Keys.{listed}
use blueboat_cpp.RoomFetcher.{get_list_of_rooms, add_room}
use blueboat_cpp.GameValues
use blueboat_cpp.Run.{Run}
use blueboat_cpp.Room.State.{Room, World, Hooks}
use blueboat_cpp.Room.Lifecycle.{initialize, default_room, assigned}
use blueboat_cpp.Server.State.{Server, levels, drop_rooms, world_of, shared_after}

module _ {V : Type 0} where
  unfoldable pub register_room : Bytes → V → Server V → Server V
  register_room room_name room_options s =
      if has room_name s.registered
      then s
      else record s { registered = put room_name room_options s.registered }

-- Up to `n` candidates, of which the first that is not taken, and not empty, is the id.
unfoldable pub pick_id : ℕ → (ℕ → Bytes) → List Bytes → Bytes
pick_id zero candidates taken = []
pick_id (suc n) candidates taken =
    let rest = pick_id n (λ i. candidates (suc i)) taken in
    if listed (candidates 0) taken || is_empty (candidates 0) then rest else candidates 0

-- `room_id_override` where it is given; the random or custom ids are `candidates`.
unfoldable pub choose_id : Bytes → (ℕ → Bytes) → List Bytes → Result Bytes
unfolding pick_id
choose_id room_id_override candidates taken =
    if not (is_empty room_id_override)
    then (if listed room_id_override taken
        then throws (codes "Room ID already in use: " ++ room_id_override)
        else ok room_id_override)
    else (let id = pick_id 3 candidates taken in
        if is_empty id then throws (codes "Failed to create room with unique ID") else ok id)

module _ (json : Json) (hooks : Bytes → Hooks json.Value) where
  open json use {Value}

  -- a room from the factory, with the fields that `initialize` assigns first
  abbrev pub new_room : Bytes → Bytes → SimpleClient → Value → Value → Server Value → Room Value
  new_room room_id room_name client room_options creator_options s =
      assigned json
        (record {
          room_id = room_id;
          room_type = room_name;
          owner = client;
          options = room_options;
          creator_options = creator_options;
          initial_game_values = GameValues.get_all json s.now s.storage;
        })
        (default_room json)

  abbrev pub snapshot : Bytes → Bytes → SimpleClient → ℕ → RoomSnapshot Value
  snapshot room_id room_name client millis = record {
    id = room_id;
    type = room_name;
    owner = client;
    metadata = object json;
    created_at = millis;
  }

  abbrev pub store_room :
      Bytes
      → Room Value
      → Server Value
      → Result (Unit {0}) × Storage
      → Option (Result Bytes × Server Value)
  store_room room_id room s (throws e, st) = some (throws e, record s { storage = st })
  store_room room_id room s (ok u, st) =
      some (ok room_id, record s { storage = st; rooms = put room_id room s.rooms })

  -- While it is initialized the room is not managed yet: a report that it is disposed drops nothing
  -- but a managed room with its id, if there is one.
  abbrev pub unmanaged : Server Value → World Value → Server Value
  unmanaged s w = let s' = shared_after s w in record s' { rooms = drop_rooms w.disposed s'.rooms }

  abbrev pub enlist :
      Bytes
      → Bytes
      → SimpleClient
      → ℕ
      → Server Value
      → Option (Result (Unit {0}) × World Value)
      → Option (Result Bytes × Server Value)
  enlist room_id room_name client millis s none = none
  enlist room_id room_name client millis s (some (throws e, w)) = some (throws e, unmanaged s w)
  enlist room_id room_name client millis s (some (ok u, w)) =
      let s' = unmanaged s w in
      store_room room_id w.room s'
        (add_room json s'.now (snapshot room_id room_name client millis) s'.storage)

  abbrev pub start_room :
      Bytes × Bytes
      → Bytes
      → SimpleClient
      → ℕ
      → Value
      → Value
      → Server Value
      → Result Bytes
      → Option (Result Bytes × Server Value)
  start_room ids room_name client millis room_options creator_options s (throws e) =
      some (throws e, s)
  start_room ids room_name client millis room_options creator_options s (ok room_id) =
      let room = new_room room_id room_name client room_options creator_options s in
      enlist room_id room_name client millis s
        (initialize json (hooks room_name) levels ids (world_of s room))

  -- `ids` are the random ids of the room's subscriptions, `candidates` those of the generator, and
  -- `millis` is the system clock.
  unfoldable pub create_new_room :
      Bytes × Bytes
      → (ℕ → Bytes)
      → ℕ
      → SimpleClient
      → Bytes
      → Value
      → Bytes
      → Run (Server Value) Bytes
  unfolding find put initialize get_list_of_rooms add_room choose_id
  create_new_room ids candidates millis client room_name creator_options room_id_override s =
      elim (find room_name s.registered) [
        | none ↦ some (throws (room_name ++ codes " does not have a room handler"), s)
        | some room_options ↦
            let existing = get_list_of_rooms s.now s.storage in
            start_room ids room_name client millis room_options creator_options
              (record s { storage = existing.1 }) (choose_id room_id_override candidates existing.0)
      ]

  unfoldable pub create_room :
      Bytes × Bytes → (ℕ → Bytes) → ℕ → Bytes → Bytes → Value → Run (Server Value) Bytes
  unfolding create_new_room
  create_room ids candidates millis room_name room_id creator_options =
      create_new_room ids candidates millis no_client room_name creator_options room_id
