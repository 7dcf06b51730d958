-- ===== src/Client/Rooms.antt =====
-- client/src/client.cpp and room.cpp: creating and joining rooms, and what the server sends.
use blueboat_cpp.Run.{Run, done, modify, lift, hook, with_state, ◌>>=◌, ◌>>◌}
use blueboat_cpp.Client.State.{
  Listeners, Room, Client, Handler, join_error, envelope, created, create_error, room_or,
  update_room, set_joined,
}
use blueboat_cpp.Sio.{
  Msgpack, FrameKind, open_frame, event, ParsedFrame, build_event_frame, parse_frame,
}
use blueboat_cpp.Json.{Json, object}
use blueboat_cpp.Base.{
  ℕ, Bool, true, false, not, Option, none, some, List, [], ◌∷◌, ◌++◌, if◌then◌else◌, Bytes, codes,
  bytes_eq, is_empty, length, get_elem?, any, find, put, erase,
}
use blueboat_cpp.Protocol

module _ (json : Json) (msgpack : Msgpack json.Value) where
  open json use {Value}

  abbrev pub give : Bool → Bytes → Client Value → Client Value
  give is_binary payload c =
      if c.connected then record c { sent = c.sent ++ (is_binary, payload) ∷ [] } else c

  unfoldable pub send_frame : Bytes → Value → Client Value → Client Value
  send_frame event_name content c = give true (build_event_frame json msgpack event_name content) c

  abbrev pub message_content : Bytes → Bytes → Value → Value
  message_content room_id key content = json.of_object (
      (codes "room", json.of_string room_id)
      ∷ (codes "key", json.of_string key)
      ∷ (codes "data", content)
      ∷ [])

  unfoldable pub send_room_message : Bytes → Bytes → Value → Client Value → Client Value
  unfolding send_frame
  send_room_message room_id key content =
      send_frame Protocol.send_message (message_content room_id key content)

  abbrev pub no_room : Room Value
  no_room = record { id = []; joined = false; initial_join_options = object json }

  abbrev pub at_place : ℕ → Client Value → Room Value
  at_place p c = room_or no_room (get_elem? c.heap p)

  -- Room::send
  unfoldable pub room_send : ℕ → Bytes → Value → Client Value → Client Value
  unfolding send_room_message
  room_send p key content c = send_room_message (at_place p c).id key content c

  -- Room::Room
  abbrev pub new_room : Value → Bytes → Room Value
  new_room options room_id = record {
    id = room_id;
    joined = false;
    initial_join_options = if json.is_null options then object json else options;
  }

  -- std::shared_ptr<Room>(new Room(...)): the place of the new room
  abbrev pub allocate : Room Value → Client Value → Client Value
  allocate room c = record c { heap = c.heap ++ room ∷ [] }

  unfoldable pub register_room_events : ℕ → Client Value → Client Value
  unfolding put
  register_room_events p c =
      let id = (at_place p c).id in
      record c {
        event_handlers =
            put (codes "message-" ++ id) (envelope p)
              (put (id ++ codes "-error") (join_error p) c.event_handlers);
      }

  abbrev pub join_content : Bytes → Value → Value
  join_content room_id options =
      json.of_object ((codes "roomId", json.of_string room_id) ∷ (codes "options", options) ∷ [])

  abbrev pub ask_to_join : ℕ → Bytes → Value → Client Value → Client Value
  ask_to_join p room_id options c =
      if (at_place p c).joined
      then c
      else send_frame Protocol.join_room (join_content room_id options) c

  abbrev pub remember : ℕ → Bytes → Client Value → Client Value
  remember p room_id c =
      if any (λ q. bytes_eq (at_place q c).id room_id) c.rooms
      then c
      else record c { rooms = c.rooms ++ p ∷ [] }

  module _ (listeners : Listeners Value) where
    -- `join_room_shared` from the call of the listeners on, for a room that there is
    unfoldable pub join_existing : Bytes → Value → ℕ → Run (Client Value) (Unit {0})
    unfolding send_frame
    join_existing room_id options p = do
      hook (listeners.on_join_attempt p)
      modify (ask_to_join p room_id options)
      modify (remember p room_id)

    -- Joining by id; the new room is at the end of the heap.
    unfoldable pub join_room : Bytes → Value → Run (Client Value) (Unit {0})
    unfolding join_existing register_room_events
    join_room room_id options = with_state (λ c. do
      modify (allocate (new_room options room_id))
      modify (register_room_events (length c.heap))
      join_existing room_id options (length c.heap))

    abbrev pub create_key : Bytes → Bytes
    create_key request_id = request_id ++ codes "-create"

    abbrev pub error_key : Bytes → Bytes
    error_key request_id = request_id ++ codes "-error"

    abbrev pub create_content : Bytes → Value → Bytes → Value
    create_content room_name options request_id = json.of_object (
        (codes "type", json.of_string room_name)
        ∷ (codes "options", options)
        ∷ (codes "uniqueRequestId", json.of_string request_id)
        ∷ [])

    -- `request_id` is the random id of the request.
    unfoldable pub create_room : Bytes → Value → Bytes → Client Value → Client Value
    unfolding send_frame put
    create_room room_name options request_id c =
        let p = length c.heap in
        let c' = allocate (new_room options []) c in
        send_frame Protocol.create_new_room (create_content room_name options request_id)
          (record c' {
            event_handlers =
                put (error_key request_id) (create_error p request_id)
                  (put (create_key request_id) (created p options request_id) c'.event_handlers);
          })

    abbrev pub forget_request : Bytes → Client Value → Client Value
    forget_request request_id c = record c {
      event_handlers =
          erase (error_key request_id) (erase (create_key request_id) c.event_handlers);
    }

    abbrev pub set_id : ℕ → Bytes → Client Value → Client Value
    set_id p room_id = update_room p (λ room. record room { id = room_id })

    abbrev pub run_envelope : ℕ → Bytes → Value → Run (Client Value) (Unit {0})
    run_envelope p key content =
        if bytes_eq key Protocol.joined_room
        then modify (set_joined p true) >> hook (listeners.on_join p)
        else if bytes_eq key Protocol.removed_from_room
        then hook (listeners.on_leave p) >> modify (set_joined p false)
        else hook (listeners.on_message p key content)

    unfoldable pub run_handler : Handler Value → Value → Run (Client Value) (Unit {0})
    unfolding join_existing register_room_events erase
    run_handler (join_error p) content = hook (listeners.on_join_error p content)
    run_handler (envelope p) content =
        if not (json.contains content (codes "key")) then done else (do
          named ← lift (json.at content (codes "key"))
          key ← lift (json.get_string named)
          inner ← lift (json.value content (codes "data") json.null)
          run_envelope p key inner)
    run_handler (created p options request_id) content = do
      room_id ← lift (json.get_string content)
      modify (set_id p room_id)
      modify (register_room_events p)
      modify (forget_request request_id)
      hook (listeners.on_create p room_id)
      join_existing room_id options p
    run_handler (create_error p request_id) content = do
      hook (listeners.on_join_error p content)
      modify (forget_request request_id)

    abbrev pub rejoin : ℕ → Run (Client Value) (Unit {0})
    rejoin p = with_state (λ c.
        if is_empty (at_place p c).id
        then done
        else join_existing (at_place p c).id (at_place p c).initial_join_options p)

    unfoldable pub rejoin_all : List ℕ → Run (Client Value) (Unit {0})
    unfolding join_existing
    rejoin_all [] = done
    rejoin_all (p ∷ ps) = rejoin p >> rejoin_all ps

    unfoldable pub handle_client_id_set : Value → Run (Client Value) (Unit {0})
    unfolding rejoin_all
    handle_client_id_set new_id = do
      id ← lift (json.get_string new_id)
      modify (λ c. record c { id = id })
      hook (listeners.on_id_saved id)
      with_state (λ c. rejoin_all c.rooms)
      hook listeners.on_connect

    abbrev pub run_found : Value → Option (Handler Value) → Run (Client Value) (Unit {0})
    run_found content none = done
    run_found content (some handler) = run_handler handler content

    abbrev pub on_event : Bytes → Value → Run (Client Value) (Unit {0})
    on_event event_name content =
        if bytes_eq event_name Protocol.client_id_set
        then handle_client_id_set content
        else with_state (λ c. run_found content (find event_name c.event_handlers))

    abbrev pub on_frame : ParsedFrame Value → FrameKind → Run (Client Value) (Unit {0})
    on_frame frame open_frame =
        modify (λ c. record c { session_id = frame.sid; ping_interval_ms = frame.ping_interval_ms })
    on_frame frame event = on_event frame.event_name frame.content
    on_frame frame _ = done

    unfoldable pub handle_ws_payload : Bool → Bytes → Run (Client Value) (Unit {0})
    unfolding parse_frame handle_client_id_set run_handler find
    handle_ws_payload is_binary payload = do
      frame ← lift (parse_frame json msgpack is_binary payload)
      on_frame frame frame.kind
