-- ===== src/Room/Lifecycle.antt =====
-- How a room begins, gains and loses clients, and ends. `dispose` and `remove_client` call one
-- another, on fuel; Room/Ending proves how much is enough.
use blueboat_cpp.Base.{
  ℕ, zero, suc, Bool, true, false, not, ◌&&◌, none, some, List, [], ◌∷◌, ◌++◌, if◌then◌else◌, Bytes,
  codes, bytes_eq, is_empty, find_if, erase_first, Result, Exec, ok, throws,
}
use blueboat_cpp.Json.{Json, object}
use blueboat_cpp.PubSub.{no_subscription}
use blueboat_cpp.Snapshot.{no_client}
use blueboat_cpp.Protocol.{joined_room, removed_from_room}
use blueboat_cpp.Protocol
use blueboat_cpp.Snapshot.{SimpleClient}
use blueboat_cpp.RoomFetcher.{remove_room, set_room_metadata}
use blueboat_cpp.PubSub.{on, end_subscription}
use blueboat_cpp.Scheduler
use blueboat_cpp.Storage.{Storage}
use blueboat_cpp.Run.{Run, done, modify, raise, hook, after, ◌>>◌, try_catch}
use blueboat_cpp.Room.State.{
  World, Hooks, game_message, player_left, has_session, auto_dispose_after, Room, RoomInitOptions,
}

module _ (json : Json) where
  open json use {Value}

  -- a room from the factory
  abbrev pub default_room : Room Value
  default_room = record {
    state = object json;
    initial_game_values = object json;
    room_id = [];
    room_type = [];
    options = object json;
    creator_options = object json;
    metadata = object json;
    owner = no_client;
    clients = [];
    disposing = false;
    game_message_sub = no_subscription;
    player_left_sub = no_subscription;
    auto_dispose_timer = none;
  }

  -- what `initialize` assigns first
  abbrev pub assigned : RoomInitOptions Value → Room Value → Room Value
  assigned init room = record room {
    room_id = init.room_id;
    room_type = init.room_type;
    owner = init.owner;
    options = init.options;
    creator_options = init.creator_options;
    initial_game_values = init.initial_game_values;
  }

  abbrev pub emit : Bytes → Bytes → Value → World Value → World Value
  emit session_id event content w = record w {
    frames = w.frames ++ record { session_id = session_id; event = event; content = content } ∷ [];
  }

  -- Client::send
  unfoldable pub send : SimpleClient → Bytes → Value → World Value → World Value
  send client key content w =
      emit client.session_id (codes "message-" ++ w.room.room_id)
        (json.of_object ((codes "key", json.of_string key) ∷ (codes "data", content) ∷ [])) w

  unfoldable pub send_all : List SimpleClient → Bytes → Value → World Value → World Value
  unfolding send
  send_all [] key content w = w
  send_all (c ∷ cs) key content w = send_all cs key content (send c key content w)

  unfoldable pub broadcast : Bytes → Value → World Value → World Value
  unfolding send_all
  broadcast key content w = send_all w.room.clients key content w

  abbrev pub keep_metadata :
      Value → World Value → Result (Unit {0}) × Storage → Result (Unit {0}) × World Value
  keep_metadata m w (throws e, st) = (throws e, record w { storage = st })
  keep_metadata m w (ok u, st) =
      (ok tt, record w { storage = st; room = record w.room { metadata = m } })

  unfoldable pub set_metadata : Value → Exec (World Value) (Unit {0})
  set_metadata new_metadata w =
      keep_metadata new_metadata w
        (set_room_metadata json w.now w.room.room_id new_metadata w.storage)

  module _ (hooks : Hooks Value) where
    abbrev pub drop_client : Bytes → World Value → World Value
    drop_client session_id w = record w {
      room = record w.room { clients = erase_first (has_session session_id) w.room.clients };
    }

    abbrev pub dispose_if_empty : Run (World Value) (Unit {0}) → Run (World Value) (Unit {0})
    dispose_if_empty again w = if is_empty w.room.clients then again w else done w

    abbrev pub leave_room :
        Run (World Value) (Unit {0}) → Bytes → Bool → SimpleClient → Run (World Value) (Unit {0})
    leave_room again session_id intentional client = do
      modify (drop_client session_id)
      modify (send client removed_from_room json.null)
      hook (hooks.on_leave_listeners client intentional)
      hook (hooks.on_leave client intentional)
      dispose_if_empty again

    -- `remove_client`, given the `dispose` that it calls
    unfoldable pub remove_client_by :
        Run (World Value) (Unit {0}) → Bytes → Bool → Run (World Value) (Unit {0})
    unfolding send
    remove_client_by again session_id intentional w =
        elim (find_if (has_session session_id) w.room.clients) [
          | none ↦ done w
          | some client ↦ leave_room again session_id intentional client w
        ]

    unfoldable pub remove_all :
        Run (World Value) (Unit {0}) → List SimpleClient → Run (World Value) (Unit {0})
    remove_all again [] w = done w
    remove_all again (c ∷ cs) w =
        after (remove_client_by again c.session_id true w) (λ _. remove_all again cs)

    abbrev pub clear_timer : World Value → World Value
    clear_timer w = record w { scheduler = Scheduler.clear w.room.auto_dispose_timer w.scheduler }

    abbrev pub leave_list : World Value → World Value
    leave_list w = record w { storage = remove_room w.room.room_id w.storage }

    abbrev pub end_game_messages : World Value → World Value
    end_game_messages w =
        let ended = end_subscription w.room.game_message_sub w.channels in
        record w { channels = ended.1; room = record w.room { game_message_sub = ended.0 } }

    abbrev pub end_player_left : World Value → World Value
    end_player_left w =
        let ended = end_subscription w.room.player_left_sub w.channels in
        record w { channels = ended.1; room = record w.room { player_left_sub = ended.0 } }

    abbrev pub report : World Value → World Value
    report w = record w { disposed = w.disposed ++ w.room.room_id ∷ [] }

    -- what `dispose` does when the clients are gone
    unfoldable pub close : Run (World Value) (Unit {0})
    close = do
      hook hooks.before_dispose
      modify clear_timer
      modify leave_list
      modify end_game_messages
      modify end_player_left
      hook hooks.on_dispose
      modify report

    abbrev pub set_disposing : World Value → World Value
    set_disposing w = record w { room = record w.room { disposing = true } }

    unfoldable pub dispose : ℕ → Run (World Value) (Unit {0})
    unfolding remove_all remove_client_by close
    dispose zero w = none
    dispose (suc f) w = elim w.room.disposing [
      | true ↦ done w
      | false ↦ after (remove_all (dispose f) w.room.clients (set_disposing w)) (λ _. close)
    ]

    unfoldable pub remove_client : ℕ → Bytes → Bool → Run (World Value) (Unit {0})
    unfolding dispose
    remove_client f session_id intentional = remove_client_by (dispose f) session_id intentional

    abbrev pub take_ownership : SimpleClient → World Value → World Value
    take_ownership client w =
        if not (is_empty w.room.owner.id) && bytes_eq client.id w.room.owner.id
        then record w {
          room = record w.room { owner = record w.room.owner { session_id = client.session_id } };
        }
        else w

    unfoldable pub client_has_joined : SimpleClient → Value → Run (World Value) (Unit {0})
    unfolding send
    client_has_joined client join_options = do
      modify (take_ownership client)
      modify (send client joined_room json.null)
      hook (hooks.on_join_listeners client)
      hook (hooks.on_join client join_options)

    abbrev pub push_client : SimpleClient → World Value → World Value
    push_client client w = record w {
      room = record w.room { clients = w.room.clients ++ client ∷ [] };
    }

    unfoldable pub add_client : SimpleClient → Value → Run (World Value) (Unit {0})
    unfolding client_has_joined
    add_client prejoined join_options = do
      modify (push_client prejoined)
      client_has_joined prejoined join_options

    -- `ids` are the two random ids that the subscriptions get.
    unfoldable pub pub_sub_listener : Bytes × Bytes → World Value → World Value
    pub_sub_listener ids w =
        let id = w.room.room_id in
        record w {
          channels =
              on Protocol.player_left ids.1 (player_left id)
                (on id ids.0 (game_message id) w.channels);
          room = record w.room {
            game_message_sub = record { active = true; key = id; id = ids.0 };
            player_left_sub = record { active = true; key = Protocol.player_left; id = ids.1 };
          };
        }

    abbrev pub start_timer : World Value → World Value
    start_timer w =
        let timer = Scheduler.set_timeout w.now auto_dispose_after w.room.room_id w.scheduler in
        record w { scheduler = timer.1; room = record w.room { auto_dispose_timer = some timer.0 } }

    -- The fields have been assigned. A throwing `on_create` disposes the room and is thrown again.
    unfoldable pub initialize : ℕ → Bytes × Bytes → Run (World Value) (Unit {0})
    unfolding dispose pub_sub_listener
    initialize f ids w =
        (try_catch (hook (hooks.on_create w.room.options)) (λ e. dispose f >> raise e)
            >> modify start_timer
            >> modify (pub_sub_listener ids))
          w
