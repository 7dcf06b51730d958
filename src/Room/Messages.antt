-- ===== src/Room/Messages.antt =====
-- What a room does with what is published on its channel and on the channel of leaving players.
use blueboat_cpp.Base.{
  ℕ, false, not, ◌||◌, Option, none, some, List, [], ◌∷◌, ◌++◌, if◌then◌else◌, Bytes, codes,
  bytes_eq, find_if,
}
use blueboat_cpp.Json.{Json, object}
use blueboat_cpp.Protocol.{external_message, request_info, join_room, send_message}
use blueboat_cpp.Snapshot.{SimpleClient, client_to_json, client_from_json}
use blueboat_cpp.Run.{Run, done, ◌>>=◌, ◌>>◌, modify, lift, hook, try_catch}
use blueboat_cpp.Room.State.{World, Hooks, has_session}
use blueboat_cpp.Room.Lifecycle.{add_client, remove_client, emit}

module _ (json : Json) where
  open json use {Value}

  abbrev pub clients_json : List SimpleClient → List Value
  clients_json [] = []
  clients_json (c ∷ cs) = client_to_json json c ∷ clients_json cs

  abbrev pub room_info : World Value → Value
  room_info w = json.of_object (
      (codes "clients", json.of_array (clients_json w.room.clients))
      ∷ (codes "state", w.room.state)
      ∷ [])

  -- the frame with `e.what()` that tells a client why it did not join
  abbrev pub refuse : SimpleClient → Bytes → World Value → World Value
  refuse client what w =
      emit json client.session_id (w.room.room_id ++ codes "-error")
        (json.of_object ((codes "message", json.of_string what) ∷ [])) w

  abbrev pub answer_info : World Value → World Value
  answer_info w = record w { published = w.published ++ (request_info, room_info w) ∷ [] }

  module _ (hooks : Hooks Value) where
    unfoldable pub pass_external : Value → Run (World Value) (Unit {0})
    pass_external payload = do
      content ← lift (json.value payload (codes "data") (object json))
      if json.contains content (codes "key")
          then (do
            named ← lift (json.at content (codes "key"))
            key ← lift (json.get_string named)
            inner ← lift (json.value content (codes "data") json.null)
            hook (hooks.on_external_message key inner))
          else done

    abbrev pub admit : SimpleClient → Value → Run (World Value) (Unit {0})
    admit client join_options = do
      hook (hooks.can_client_join client join_options)
      add_client json hooks client join_options

    -- What joining throws, in `can_client_join` or later, is told to the client.
    unfoldable pub join : SimpleClient → Value → Run (World Value) (Unit {0})
    unfolding add_client
    join client payload = do
      content ← lift (json.value payload (codes "data") (object json))
      join_options ← lift (json.value content (codes "options") (object json))
      try_catch (admit client join_options) (λ what. modify (refuse client what))

    abbrev pub pass_to : Value → Option SimpleClient → Run (World Value) (Unit {0})
    pass_to payload none = done
    pass_to payload (some member) = do
      content ← lift (json.value payload (codes "data") (object json))
      key ← lift (json.value_string content (codes "key") [])
      inner ← lift (json.value content (codes "data") json.null)
      hook (hooks.on_message member key inner)

    unfoldable pub pass_message : SimpleClient → Value → Run (World Value) (Unit {0})
    pass_message client payload w =
        pass_to payload (find_if (has_session client.session_id) w.room.clients) w

    unfoldable pub client_action : Bytes → SimpleClient → Value → Run (World Value) (Unit {0})
    unfolding join pass_message
    client_action action client payload =
        if bytes_eq action join_room
        then join client payload
        else if bytes_eq action send_message
        then pass_message client payload
        else done

    unfoldable pub room_action : Bytes → Value → Run (World Value) (Unit {0})
    unfolding pass_external client_action
    room_action action payload =
        if bytes_eq action request_info
        then modify answer_info
        else if bytes_eq action external_message
        then pass_external payload
        else if not (json.contains payload (codes "client"))
        then done
        else (do
          sender ← lift (json.at payload (codes "client"))
          client ← lift (client_from_json json sender)
          client_action action client payload)

    -- the handler of the room's own channel
    unfoldable pub on_game_message : Value → Run (World Value) (Unit {0})
    unfolding room_action
    on_game_message payload =
        if not (json.is_object payload) || not (json.contains payload (codes "action"))
        then done
        else (do
          named ← lift (json.at payload (codes "action"))
          action ← lift (json.get_string named)
          room_action action payload)

    -- the handler of the channel of leaving players
    unfoldable pub on_player_left : ℕ → Value → Run (World Value) (Unit {0})
    unfolding remove_client
    on_player_left f payload = do
      session_id ← lift (json.get_string payload)
      remove_client json hooks f session_id false
