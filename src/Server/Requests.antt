-- ===== src/Server/Requests.antt =====
-- What the server does with a client's frames and with the end of its connection.
use blueboat_cpp.Base.{
  ℕ, Bool, not, ◌||◌, List, [], ◌∷◌, ◌++◌, if◌then◌else◌, Bytes, codes, bytes_eq, is_empty, length,
  find, put, erase, has,
}
use blueboat_cpp.Json.{Json, object}
use blueboat_cpp.Protocol.{create_new_room, join_room, send_message, player_left}
use blueboat_cpp.Snapshot.{SimpleClient, RoomSnapshot, client_to_json}
use blueboat_cpp.RoomFetcher.{find_room_by_id, get_list_of_rooms, get_list_of_rooms_with_data}
use blueboat_cpp.Sio.{Msgpack, parse_frame, ping, disconnect, event, FrameKind, ParsedFrame}
use blueboat_cpp.Run.{Run, done, ◌>>=◌, ◌>>◌, modify, lift, with_state, try_catch}
use blueboat_cpp.Room.State.{Hooks}
use blueboat_cpp.Server.State.{Server, publish, send_frame_to_client}
use blueboat_cpp.Server.Creation

module _ (json : Json) (hooks : Bytes → Hooks json.Value) where
  open json use {Value}

  abbrev pub tell : SimpleClient → Bytes → Value → Server Value → Server Value
  tell client event_name content =
      send_frame_to_client
        (record { session_id = client.session_id; event = event_name; content = content })

  abbrev pub message : Bytes → Value
  message what = json.of_object ((codes "message", json.of_string what) ∷ [])

  -- the arguments of `create_new_room` that come from outside: random ids, candidates, the clock
  abbrev pub Draws : Type 0
  Draws = (Bytes × Bytes) × (ℕ → Bytes) × ℕ

  abbrev pub try_create :
      Draws → SimpleClient → Bytes → Bytes → Value → Run (Server Value) (Unit {0})
  try_create (ids, candidates, millis) client unique_request_id room_name content = do
    creator_options ← lift (json.value content (codes "options") (object json))
    room_id ←
        Creation.create_new_room json hooks ids candidates millis client room_name creator_options
          []
    modify (tell client (unique_request_id ++ codes "-create") (json.of_string room_id))

  unfoldable pub handle_create : Draws → SimpleClient → Value → Run (Server Value) (Unit {0})
  unfolding Creation.create_new_room send_frame_to_client
  handle_create draws client content = do
    unique_request_id ← lift (json.value_string content (codes "uniqueRequestId") [])
    room_name ← lift (json.value_string content (codes "type") [])
    if is_empty room_name || is_empty unique_request_id
        then done
        else try_catch (try_create draws client unique_request_id room_name content)
            (λ what. modify (tell client (unique_request_id ++ codes "-error") (message what)))

  abbrev pub join_payload : SimpleClient → Value → Value
  join_payload client join_options = json.of_object (
      (codes "action", json.of_string join_room)
      ∷ (codes "client", client_to_json json client)
      ∷ (codes "data", json.of_object ((codes "options", join_options) ∷ []))
      ∷ [])

  abbrev pub try_join : SimpleClient → Bytes → Value → Run (Server Value) (Unit {0})
  try_join client room_id content = do
    room ← with_state (λ s. lift (find_room_by_id json s.now room_id s.storage))
    join_options ← lift (json.value content (codes "options") (object json))
    publish json hooks room_id (join_payload client join_options)

  unfoldable pub handle_join : SimpleClient → Value → Run (Server Value) (Unit {0})
  unfolding find_room_by_id publish send_frame_to_client
  handle_join client content = do
    room_id ← lift (json.value_string content (codes "roomId") [])
    if is_empty room_id
        then done
        else try_catch (try_join client room_id content)
            (λ what. modify (tell client (room_id ++ codes "-error") (message what)))

  abbrev pub message_payload : SimpleClient → Value → Value → Value
  message_payload client key content = json.of_object (
      (codes "client", client_to_json json client)
      ∷ (codes "action", json.of_string send_message)
      ∷ (codes "data", json.of_object ((codes "key", key) ∷ (codes "data", content) ∷ []))
      ∷ [])

  unfoldable pub handle_send : SimpleClient → Value → Run (Server Value) (Unit {0})
  unfolding publish
  handle_send client content = do
    room ← lift (json.value_string content (codes "room") [])
    if is_empty room || not (json.contains content (codes "key")) then done else (do
      key ← lift (json.at content (codes "key"))
      inner ← lift (json.value content (codes "data") json.null)
      publish json hooks room (message_payload client key inner))

  abbrev pub object_or_empty : Value → Value
  object_or_empty v = if json.is_object v then v else object json

  unfoldable pub handle_client_message :
      Draws → SimpleClient → Bytes → Value → Run (Server Value) (Unit {0})
  unfolding handle_create handle_join handle_send
  handle_client_message draws client event_name data_in =
      let content = object_or_empty data_in in
      if bytes_eq event_name create_new_room
      then handle_create draws client content
      else if bytes_eq event_name join_room
      then handle_join client content
      else if bytes_eq event_name send_message
      then handle_send client content
      else done

  unfoldable pub handle_client_disconnect : Bytes → Run (Server Value) (Unit {0})
  unfolding publish erase
  handle_client_disconnect session_id = do
    modify (λ s. record s { connections = erase session_id s.connections })
    publish json hooks player_left (json.of_string session_id)

  -- A frame of a session that is still active moves its time of activity.
  abbrev pub touch : Bytes → ℕ → Server Value → Server Value
  touch session_id clock s =
      if has session_id s.last_activity
      then record s { last_activity = put session_id clock s.last_activity }
      else s

  abbrev pub pong : Bytes → Server Value → Server Value
  pong session_id s =
      if has session_id s.connections then record s { pongs = s.pongs ++ session_id ∷ [] } else s

  abbrev pub on_frame :
      Draws → SimpleClient → ParsedFrame Value → FrameKind → Run (Server Value) (Unit {0})
  on_frame draws client frame ping = modify (pong client.session_id)
  on_frame draws client frame disconnect = handle_client_disconnect client.session_id
  on_frame draws client frame event =
      handle_client_message draws client frame.event_name frame.content
  on_frame draws client frame _ = done

  module _ (msgpack : Msgpack Value) where
    -- `clock` is the steady clock in milliseconds.
    unfoldable pub handle_ws_payload :
        ℕ → Draws → SimpleClient → Bool → Bytes → Run (Server Value) (Unit {0})
    unfolding find put parse_frame handle_client_message handle_client_disconnect
    handle_ws_payload clock draws client is_binary payload = do
      modify (touch client.session_id clock)
      frame ← lift (parse_frame json msgpack is_binary payload)
      on_frame draws client frame frame.kind

module _ (json : Json) where
  unfoldable pub get_room_count : Server json.Value → ℕ × Server json.Value
  unfolding get_list_of_rooms
  get_room_count s =
      let listing = get_list_of_rooms s.now s.storage in
      (length listing.0, record s { storage = listing.1 })

  unfoldable pub get_rooms : Server json.Value → List (RoomSnapshot json.Value) × Server json.Value
  unfolding get_list_of_rooms_with_data
  get_rooms s =
      let listing = get_list_of_rooms_with_data json s.now s.storage in
      (listing.0, record s { storage = listing.1 })

  unfoldable pub get_number_of_connected_clients : Server json.Value → ℕ
  get_number_of_connected_clients s = length s.connections
