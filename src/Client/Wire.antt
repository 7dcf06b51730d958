-- ===== src/Client/Wire.antt =====
-- What a client and a server make of each other's messages: client/src/client.cpp and room.cpp
-- against server/src/server.cpp and room.cpp.
use blueboat_cpp.RoomFetcher.{find_room_by_id}
use blueboat_cpp.Run.{Run, after, modify, lift, with_state, ◌>>=◌, try_catch}
use blueboat_cpp.Snapshot.{SimpleClient}
use blueboat_cpp.Client.Rooms.{
  room_send, message_content, send_room_message, at_place, join_content, ask_to_join, run_envelope,
}
use blueboat_cpp.Server.Requests.{
  handle_client_message, Draws, tell, message, join_payload, handle_join, message_payload,
  handle_send, touch,
}
use blueboat_cpp.Sio.Frames.{ArrayLaws, rest, parse_frame-build_event_frame}
use blueboat_cpp.Sio.{
  Msgpack, event_type, event, ParsedFrame, blank, packet, build_event_frame, parse_frame,
}
use blueboat_cpp.Json.{Json, object, ObjectLaws}
use blueboat_cpp.Base.{
  ℕ, ◌≡◌, refl, ◌∙◌, inl, inr, true, false, some, [], ◌∷◌, ◌++◌, if◌then◌else◌, Bool-cases, Bytes,
  codes, bytes_eq, is_empty, Assoc, find, Result, ok, throws,
}
use blueboat_cpp.Protocol
use blueboat_cpp.Client.Rooms
use blueboat_cpp.Server.Requests
use blueboat_cpp.Server.State.{Server, run_handler, publish}
use blueboat_cpp.Room.State.{Hooks, Frame, World}
use blueboat_cpp.Room.Lifecycle
use blueboat_cpp.Client.State.{Client, envelope, Listeners, set_joined}

module _ (json : Json) (laws : ObjectLaws json) (msgpack : Msgpack json.Value)
    (arrays : ArrayLaws json laws msgpack) where
  open json use {Value}

  -- The content is no null but the null value, and the packet of the event unpacks to itself.
  pub record IsCarried (name : Bytes) (content : Value) : Type 0 where
    pub null_only : json.is_null content ≡ true → content ≡ json.null
    pub decoded :
        msgpack.decode (
          msgpack.encode
            (packet json msgpack event_type (rest json laws msgpack arrays name content)))
        ≡ ok (packet json msgpack event_type (rest json laws msgpack arrays name content))

  abbrev event_frame : Bytes → Value → ParsedFrame Value
  event_frame name content = record (blank json msgpack) {
    kind = event;
    event_name = name;
    content = content;
  }

  frame_read :
      (name : Bytes) (content : Value)
      → IsCarried name content
      → parse_frame json msgpack true (build_event_frame json msgpack name content)
        ≡ ok (event_frame name content)
  frame_read name content h =
      parse_frame-build_event_frame json laws msgpack arrays name content h.null_only h.decoded

  module _ (hooks : Bytes → Hooks Value) where
    event_read :
        (clock : ℕ) (draws : Draws json hooks) (client : SimpleClient) (name : Bytes)
        (content : Value) (s : Server Value)
        → IsCarried name content
        → Requests.handle_ws_payload json hooks msgpack clock draws client true
            (build_event_frame json msgpack name content)
            s
          ≡ handle_client_message json hooks draws client name content
              (touch json hooks client.session_id clock s)
    unfolding Requests.handle_ws_payload
    event_read clock draws client name content s h = rw (frame_read name content h) refl

    abbrev message_fields : Bytes → Bytes → Value → Assoc Value
    message_fields id key content =
        (codes "room", json.of_string id)
        ∷ (codes "key", json.of_string key)
        ∷ (codes "data", content)
        ∷ []

    handle_send-message_content :
        (draws : Draws json hooks) (client : SimpleClient) (id key : Bytes) (content : Value)
        (s : Server Value)
        → is_empty id ≡ false
        → handle_client_message json hooks draws client Protocol.send_message
            (message_content json msgpack id key content)
            s
          ≡ publish json hooks id (message_payload json hooks client (json.of_string key) content) s
    unfolding handle_client_message handle_send find bytes_eq
    handle_send-message_content draws client id key content s e =
        let fs = message_fields id key content in
        rw
          (
            laws.is_object_of_object fs,
            laws.value_string_object fs (codes "room") id [] refl,
            laws.contains_object fs (codes "key"),
            laws.at_object fs (codes "key") (json.of_string key) refl,
            laws.value_object fs (codes "data") content json.null refl,
            e,
          )
          refl

    -- With JSON objects and arrays as documented: what `Room::send` of a connected client adds to
    -- the messages of its connection is one binary message, and where that is carried, and the
    -- room has an id, the server publishes the message, with the session's client, on the room's
    -- channel.
    pub handle_ws_payload-room_send :
        (p : ℕ) (key : Bytes) (content : Value) (c : Client Value) (clock : ℕ)
        (draws : Draws json hooks) (client : SimpleClient) (s : Server Value)
        → c.connected ≡ true
        → is_empty (at_place json msgpack p c).id ≡ false
        → IsCarried Protocol.send_message
            (message_content json msgpack (at_place json msgpack p c).id key content)
        → (frame : Bytes) × ((room_send json msgpack p key content c).sent
            ≡ c.sent ++ (true, frame) ∷ [])
          × (Requests.handle_ws_payload json hooks msgpack clock draws client true frame s
              ≡ publish json hooks
                  (at_place json msgpack p c).id
                  (message_payload json hooks client (json.of_string key) content)
                  (touch json hooks client.session_id clock s))
    unfolding room_send send_room_message Rooms.send_frame
    handle_ws_payload-room_send p key content c clock draws client s on e h = (
      build_event_frame json msgpack Protocol.send_message
          (message_content json msgpack (at_place json msgpack p c).id key content),
      rw on refl,
      event_read clock draws client _ _ s h
          ∙ handle_send-message_content draws client _ key content _ e,
    )

    -- What a request to join does on the server.
    abbrev pub look_and_publish : SimpleClient → Bytes → Value → Run (Server Value) (Unit {0})
    look_and_publish client id options = do
      room ← with_state (λ s. lift (find_room_by_id json s.now id s.storage))
      publish json hooks id (join_payload json hooks client options)

    abbrev pub answer_join : SimpleClient → Bytes → Value → Run (Server Value) (Unit {0})
    answer_join client id options =
        try_catch (look_and_publish client id options)
          (λ what. modify (tell json hooks client (id ++ codes "-error") (message json hooks what)))

    abbrev join_fields : Bytes → Value → Assoc Value
    join_fields id options = (codes "roomId", json.of_string id) ∷ (codes "options", options) ∷ []

    handle_join-join_content :
        (draws : Draws json hooks) (client : SimpleClient) (id : Bytes) (options : Value)
        (s : Server Value)
        → is_empty id ≡ false
        → handle_client_message json hooks draws client Protocol.join_room
            (join_content json msgpack id options)
            s
          ≡ answer_join client id options s
    unfolding handle_client_message handle_join find bytes_eq
    handle_join-join_content draws client id options s e =
        let fs = join_fields id options in
        rw
          (
            laws.is_object_of_object fs,
            laws.value_string_object fs (codes "roomId") id [] refl,
            e,
            laws.value_object fs (codes "options") options (object json) refl,
          )
          refl

    -- With JSON objects and arrays as documented: a connected client that asks to join a room by an
    -- id, which is not empty, and that has not joined it, adds one binary message, and where that
    -- is carried the server looks the room up and publishes the request, with the session's client
    -- and the options, on the room's channel; what is thrown meanwhile is told to that session.
    pub handle_ws_payload-ask_to_join :
        (p : ℕ) (id : Bytes) (options : Value) (c : Client Value) (clock : ℕ)
        (draws : Draws json hooks) (client : SimpleClient) (s : Server Value)
        → c.connected ≡ true
        → (at_place json msgpack p c).joined ≡ false
        → is_empty id ≡ false
        → IsCarried Protocol.join_room (join_content json msgpack id options)
        → (frame : Bytes) × ((ask_to_join json msgpack p id options c).sent
            ≡ c.sent ++ (true, frame) ∷ [])
          × (Requests.handle_ws_payload json hooks msgpack clock draws client true frame s
              ≡ answer_join client id options (touch json hooks client.session_id clock s))
    unfolding Rooms.send_frame
    handle_ws_payload-ask_to_join p id options c clock draws client s on new e h = (
      build_event_frame json msgpack Protocol.join_room (join_content json msgpack id options),
      rw (new, on) refl,
      event_read clock draws client _ _ s h ∙ handle_join-join_content draws client id options _ e,
    )

  -- From the server to the client.
  abbrev pub envelope_fields : Bytes → Value → Assoc Value
  envelope_fields key content = (codes "key", json.of_string key) ∷ (codes "data", content) ∷ []

  abbrev pub envelope_content : Bytes → Value → Value
  envelope_content key content = json.of_object (envelope_fields key content)

  envelope_read :
      (listeners : Listeners Value) (id key : Bytes) (content : Value) (p : ℕ) (c : Client Value)
      → find (codes "message-" ++ id) c.event_handlers ≡ some (envelope p)
      → IsCarried (codes "message-" ++ id) (envelope_content key content)
      → Rooms.handle_ws_payload json msgpack listeners true
          (build_event_frame json msgpack (codes "message-" ++ id) (envelope_content key content))
          c
        ≡ run_envelope json msgpack listeners p key content c
  unfolding Rooms.handle_ws_payload run_handler find bytes_eq
  envelope_read listeners id key content p c registered h =
      let fs = envelope_fields key content in
      rw
        (
          frame_read (codes "message-" ++ id) (envelope_content key content) h,
          registered,
          laws.contains_object fs (codes "key"),
          laws.at_object fs (codes "key") (json.of_string key) refl,
          laws.get_string_of_string key,
          laws.value_object fs (codes "data") content json.null refl,
        )
        refl

  -- What a client makes of a message of its room at `p`: it is joined from now on, and the listeners
  -- for that hear of it; or the listeners for leaving hear of it, and unless one throws the room is
  -- not joined any more; or the listeners for messages get the key and the content.
  abbrev pub left_after : ℕ → Result (Unit {0}) × Client Value → Result (Unit {0}) × Client Value
  left_after p (ok u, c) = (ok tt, set_joined p false c)
  left_after p (throws e, c) = (throws e, c)

  abbrev pub takes :
      Listeners Value → ℕ → Bytes → Value → Client Value → Result (Unit {0}) × Client Value
  takes listeners p key content c =
      if bytes_eq key (codes "blueboat_JOINED_ROOM")
      then listeners.on_join p (set_joined p true c)
      else if bytes_eq key (codes "blueboat_REMOVED_FROM_ROOM")
      then left_after p (listeners.on_leave p c)
      else listeners.on_message p key content c

  left_after-some :
      (p : ℕ) (r : Result (Unit {0}) × Client Value)
      → after (some r) (λ _. modify (set_joined p false)) ≡ some (left_after p r)
  left_after-some p (ok u, c) = refl
  left_after-some p (throws e, c) = refl

  run_envelope-takes :
      (listeners : Listeners Value) (p : ℕ) (key : Bytes) (content : Value) (c : Client Value)
      → run_envelope json msgpack listeners p key content c ≡ some (takes listeners p key content c)
  run_envelope-takes listeners p key content c =
      elim (Bool-cases (bytes_eq key Protocol.joined_room)) [
        | inl joined ↦ rw joined refl
        | inr unlike ↦ elim (Bool-cases (bytes_eq key Protocol.removed_from_room)) [
          | inl removed ↦ rw (unlike, removed) (left_after-some p (listeners.on_leave p c))
          | inr neither ↦ rw (unlike, neither) refl
        ]
      ]

  -- With JSON objects and arrays as documented: what a room of the server sends to one of its
  -- clients is one frame, and where that is carried, a client that has registered the room's events
  -- takes it as the room's message: it has joined, it has left, or its listeners for messages get
  -- the key and the content that were sent.
  pub handle_ws_payload-send :
      (listeners : Listeners Value) (to : SimpleClient) (key : Bytes) (content : Value)
      (w : World Value) (p : ℕ) (c : Client Value)
      → find (codes "message-" ++ w.room.room_id) c.event_handlers ≡ some (envelope p)
      → IsCarried (codes "message-" ++ w.room.room_id) (envelope_content key content)
      → (f : Frame Value) × ((Lifecycle.send json to key content w).frames ≡ w.frames ++ f ∷ [])
        × (f.session_id ≡ to.session_id)
        × (Rooms.handle_ws_payload json msgpack listeners true
              (build_event_frame json msgpack f.event f.content)
              c
            ≡ some (takes listeners p key content c))
  unfolding Lifecycle.send
  handle_ws_payload-send listeners to key content w p c registered h = (
    record {
      session_id = to.session_id;
      event = codes "message-" ++ w.room.room_id;
      content = envelope_content key content;
    },
    refl,
    refl,
    envelope_read listeners w.room.room_id key content p c registered h
        ∙ run_envelope-takes listeners p key content c,
  )
