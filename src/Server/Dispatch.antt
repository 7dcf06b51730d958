-- ===== src/Server/Dispatch.antt =====
-- What the server publishes on a room's channel is what the room reads there.
use blueboat_cpp.Server.Admin.{external_payload}
use blueboat_cpp.Snapshot.RoundTrip.{client_from_json-client_to_json}
use blueboat_cpp.Room.Lifecycle.{send, take_ownership, push_client, add_client, client_has_joined}
use blueboat_cpp.Run.{on_throw, after, modify, Run, done, hook}
use blueboat_cpp.Server.Requests.{join_payload, message_payload}
use blueboat_cpp.Room.Messages.{
  on_game_message, refuse, join, client_action, room_action, pass_external, pass_to, pass_message,
}
use blueboat_cpp.Snapshot.{SimpleClient, client_to_json}
use blueboat_cpp.Room.State.{Hooks, World, has_session}
use blueboat_cpp.Json.{Json, object, ObjectLaws}
use blueboat_cpp.Base.{
  ◌≡◌, refl, inl, inr, not, ◌&&◌, Option, none, some, [], ◌∷◌, ◌++◌, if◌then◌else◌, Bool-cases,
  Bytes, codes, bytes_eq, is_empty, find_if, Assoc, find, Result, ok, throws,
}
use blueboat_cpp.Protocol

module _ (json : Json) (laws : ObjectLaws json) (hooks : Hooks json.Value)
    (all_hooks : Bytes → Hooks json.Value) where
  open json use {Value}

  abbrev options_fields : Value → Assoc Value
  options_fields o = (codes "options", o) ∷ []

  abbrev join_fields : SimpleClient → Value → Assoc Value
  join_fields c o =
      (codes "action", json.of_string Protocol.join_room)
      ∷ (codes "client", client_to_json json c)
      ∷ (codes "data", json.of_object (options_fields o))
      ∷ []

  -- The room with the client as its last one, who owns it from now on where the owner has the
  -- client's id; and the client is told that it has joined.
  abbrev pub with_member : SimpleClient → World Value → World Value
  with_member c w = record w {
    room = record w.room {
      clients = w.room.clients ++ c ∷ [];
      owner =
          if not (is_empty w.room.owner.id) && bytes_eq c.id w.room.owner.id
          then record w.room.owner { session_id = c.session_id }
          else w.room.owner;
    };
    frames =
        w.frames
        ++ record {
          session_id = c.session_id;
          event = codes "message-" ++ w.room.room_id;
          content =
              json.of_object (
                (codes "key", json.of_string Protocol.joined_room)
                ∷ (codes "data", json.null)
                ∷ []);
        }
          ∷ [];
  }

  -- the client is told why it is not let in, and nothing is thrown
  abbrev pub unless_thrown :
      SimpleClient
      → Result (Unit {0}) × World Value
      → (World Value → Option (Result (Unit {0}) × World Value))
      → Option (Result (Unit {0}) × World Value)
  unless_thrown c (ok u, w) next = next w
  unless_thrown c (throws what, w) next = some (
    ok tt,
    record w {
      frames =
          w.frames
          ++ record {
            session_id = c.session_id;
            event = w.room.room_id ++ codes "-error";
            content = json.of_object ((codes "message", json.of_string what) ∷ []);
          }
            ∷ [];
    },
  )

  abbrev pub let_in : SimpleClient → Value → World Value → Option (Result (Unit {0}) × World Value)
  let_in c o w = unless_thrown c (hooks.can_client_join c o w) λ asked.
      unless_thrown c (hooks.on_join_listeners c (with_member c asked))
        λ listened. unless_thrown c (hooks.on_join c o listened) λ w'. some (ok tt, w')

  caught :
      (c : SimpleClient) (r : Result (Unit {0}) × World Value)
      → on_throw (some r) (λ what. modify (refuse json c what))
        ≡ unless_thrown c r (λ w'. some (ok tt, w'))
  caught c (ok u, w) = refl
  caught c (throws e, w) = refl

  heard :
      (c : SimpleClient) (o : Value) (r : Result (Unit {0}) × World Value)
      → on_throw
          (after (some r) (λ _. hook (hooks.on_join c o)))
          (λ what. modify (refuse json c what))
        ≡ unless_thrown c r
            (λ listened. unless_thrown c (hooks.on_join c o listened) λ w'. some (ok tt, w'))
  heard c o (ok u, w) = caught c (hooks.on_join c o w)
  heard c o (throws e, w) = refl

  abbrev welcome : SimpleClient → World Value → World Value
  welcome c w =
      send json c Protocol.joined_room json.null
        (take_ownership json hooks c (push_client json hooks c w))

  joined : (c : SimpleClient) (w : World Value) → welcome c w ≡ with_member c w
  unfolding send
  joined c w = elim (Bool-cases (not (is_empty w.room.owner.id) && bytes_eq c.id w.room.owner.id)) [
    | inl e ↦ rw e refl
    | inr e ↦ rw e refl
  ]

  admitted :
      (c : SimpleClient) (o : Value) (r : Result (Unit {0}) × World Value)
      → on_throw
          (after (some r) (λ _. add_client json hooks c o))
          (λ what. modify (refuse json c what))
        ≡ unless_thrown c r (λ asked.
          unless_thrown c
            (hooks.on_join_listeners c (with_member c asked))
            λ listened. unless_thrown c (hooks.on_join c o listened) λ w'. some (ok tt, w'))
  unfolding add_client client_has_joined
  admitted c o (ok u, w) = rw (← joined c w) (heard c o (hooks.on_join_listeners c (welcome c w)))
  admitted c o (throws e, w) = refl

  -- With JSON objects as documented, the payload that a client's request to join publishes makes the
  -- room ask the game about that client, with the options of the request; then it is the room's last
  -- client, owns the room again where the owner has its id, is told that it has joined, and the
  -- listeners and the game hear of it. What is thrown on the way ends this, and is told to the
  -- client.
  pub on_game_message-join_payload :
      (c : SimpleClient) (o : Value) (w : World Value)
      → on_game_message json hooks (join_payload json all_hooks c o) w ≡ let_in c o w
  unfolding on_game_message room_action client_action join find bytes_eq
  on_game_message-join_payload c o w =
      let fs = join_fields c o in
      rw
        (
          laws.is_object_of_object fs,
          laws.contains_object fs (codes "action"),
          laws.at_object fs (codes "action") (json.of_string Protocol.join_room) refl,
          laws.get_string_of_string Protocol.join_room,
          laws.contains_object fs (codes "client"),
          laws.at_object fs (codes "client") (client_to_json json c) refl,
          client_from_json-client_to_json json laws c,
          laws.value_object fs (codes "data") (json.of_object (options_fields o)) (object json)
              refl,
          laws.value_object (options_fields o) (codes "options") o (object json) refl,
        )
        (admitted c o (hooks.can_client_join c o w))

  abbrev content_fields : Bytes → Value → Assoc Value
  content_fields k v = (codes "key", json.of_string k) ∷ (codes "data", v) ∷ []

  abbrev message_fields : SimpleClient → Bytes → Value → Assoc Value
  message_fields c k v =
      (codes "client", client_to_json json c)
      ∷ (codes "action", json.of_string Protocol.send_message)
      ∷ (codes "data", json.of_object (content_fields k v))
      ∷ []

  -- The game hears of a message from a member, and of nothing from anyone else.
  abbrev pub told : Bytes → Value → Option SimpleClient → Run (World Value) (Unit {0})
  told k v none = done
  told k v (some member) = hook (hooks.on_message member k v)

  told_by :
      (c : SimpleClient) (k : Bytes) (v : Value) (w : World Value) (o : Option SimpleClient)
      → pass_to json hooks (json.of_object (message_fields c k v)) o w ≡ told k v o w
  unfolding find bytes_eq
  told_by c k v w none = refl
  told_by c k v w (some member) =
      rw
        (
          laws.value_object (message_fields c k v) (codes "data")
              (json.of_object (content_fields k v)) (object json) refl,
          laws.value_string_object (content_fields k v) (codes "key") k [] refl,
          laws.value_object (content_fields k v) (codes "data") v json.null refl,
        )
        refl

  -- With JSON objects as documented, the payload that a client's message publishes makes the room
  -- pass its key and content to the game, from the first member with the client's session, and does
  -- nothing where there is no such member.
  pub on_game_message-message_payload :
      (c : SimpleClient) (k : Bytes) (v : Value) (w : World Value)
      → on_game_message json hooks (message_payload json all_hooks c (json.of_string k) v) w
        ≡ told k v (find_if (has_session c.session_id) w.room.clients) w
  unfolding on_game_message room_action client_action pass_message find bytes_eq
  on_game_message-message_payload c k v w =
      let fs = message_fields c k v in
      rw
        (
          laws.is_object_of_object fs,
          laws.contains_object fs (codes "action"),
          laws.at_object fs (codes "action") (json.of_string Protocol.send_message) refl,
          laws.get_string_of_string Protocol.send_message,
          laws.contains_object fs (codes "client"),
          laws.at_object fs (codes "client") (client_to_json json c) refl,
          client_from_json-client_to_json json laws c,
        )
        (told_by c k v w (find_if (has_session c.session_id) w.room.clients))

  abbrev external_fields : Bytes → Value → Assoc Value
  external_fields k v =
      (codes "action", json.of_string Protocol.external_message)
      ∷ (codes "data", json.of_object (content_fields k v))
      ∷ []

  -- With JSON objects as documented, the payload of an external message that the admin API
  -- publishes makes the room pass its key and content to the game.
  pub on_game_message-external_payload :
      (k : Bytes) (v : Value) (w : World Value)
      → on_game_message json hooks (external_payload json all_hooks (json.of_string k) v) w
        ≡ some (hooks.on_external_message k v w)
  unfolding on_game_message room_action pass_external find bytes_eq
  on_game_message-external_payload k v w =
      let fs = external_fields k v in
      let inner = content_fields k v in
      rw
        (
          laws.is_object_of_object fs,
          laws.contains_object fs (codes "action"),
          laws.at_object fs (codes "action") (json.of_string Protocol.external_message) refl,
          laws.get_string_of_string Protocol.external_message,
          laws.value_object fs (codes "data") (json.of_object inner) (object json) refl,
          laws.contains_object inner (codes "key"),
          laws.at_object inner (codes "key") (json.of_string k) refl,
          laws.get_string_of_string k,
          laws.value_object inner (codes "data") v json.null refl,
        )
        refl
