-- ===== src/Server/State.antt =====
-- The server's state, and how an operation of a room runs inside it: a room that is managed works on
-- the shared store, channels and timers; its frames go to the connections that there are, and the
-- rooms that report that they are disposed are dropped. Each operation holds the game lock.
use blueboat_cpp.Base.{
  ℕ, Option, none, some, List, [], ◌∷◌, ◌++◌, Bytes, Assoc, find, put, erase, Result, ok,
}
use blueboat_cpp.Json.{Json}
use blueboat_cpp.Snapshot.{SimpleClient}
use blueboat_cpp.Storage.{Storage}
use blueboat_cpp.PubSub.{Listener}
use blueboat_cpp.PubSub
use blueboat_cpp.Scheduler.{Scheduler}
use blueboat_cpp.Run.{Run, done, after}
use blueboat_cpp.Room.State.{
  Room, World, Hooks, Handler, Frame, game_message, player_left, admin_reply,
}
use blueboat_cpp.Room.Messages.{on_game_message, on_player_left}

pub record Server (V : Type 0) : Type 0 where
  -- registered_rooms_: the options of each room type; the factory is the `hooks` below
  pub registered : Assoc V
  -- managing_rooms_
  pub rooms : Assoc (Room V)
  -- connections_
  pub connections : Assoc SimpleClient
  -- last_activity_by_session_
  pub last_activity : Assoc ℕ
  pub storage : Storage
  pub channels : Assoc (List (Listener Handler))
  pub scheduler : Scheduler Bytes
  pub now : ℕ
  -- what has been sent to connected clients, in order
  pub sent : List (Frame V)
  -- sessions that were answered with a pong
  pub pongs : List Bytes
  -- what reached the listeners of the admin API
  pub replies : List (ℕ × V)

module _ {V : Type 0} where
  abbrev pub send_if : Option SimpleClient → Frame V → Server V → Server V
  send_if none f s = s
  send_if (some info) f s = record s { sent = s.sent ++ f ∷ [] }

  unfoldable pub send_frame_to_client : Frame V → Server V → Server V
  unfolding find
  send_frame_to_client f s = send_if (find f.session_id s.connections) f s

  unfoldable pub send_frames : List (Frame V) → Server V → Server V
  unfolding send_frame_to_client
  send_frames [] s = s
  send_frames (f ∷ fs) s = send_frames fs (send_frame_to_client f s)

  abbrev pub add_replies : List (Listener Handler) → V → List (ℕ × V) → List (ℕ × V)
  add_replies [] v replies = replies
  add_replies (l ∷ ls) v replies = elim l.handler [
    | game_message id ↦ add_replies ls v replies
    | player_left id ↦ add_replies ls v replies
    | admin_reply n ↦ add_replies ls v (replies ++ (n, v) ∷ [])
  ]

  -- What a room publishes are answers to the admin API.
  unfoldable pub answer : List (Bytes × V) → Server V → Server V
  answer [] s = s
  answer ((key, v) ∷ rest) s =
      answer rest (record s { replies = add_replies (PubSub.at_key key s.channels) v s.replies })

  unfoldable pub drop_rooms : List Bytes → Assoc (Room V) → Assoc (Room V)
  unfolding erase
  drop_rooms [] rooms = rooms
  drop_rooms (id ∷ ids) rooms = drop_rooms ids (erase id rooms)

  -- the part of the server that a room works on
  abbrev pub world_of : Server V → Room V → World V
  world_of s room = record {
    room = room;
    storage = s.storage;
    channels = s.channels;
    scheduler = s.scheduler;
    now = s.now;
    frames = [];
    published = [];
    disposed = [];
  }

  -- the server after a room's operation, but for the room itself
  abbrev pub shared_after : Server V → World V → Server V
  shared_after s w = answer w.published (
      send_frames w.frames
        (record s { storage = w.storage; channels = w.channels; scheduler = w.scheduler }))

  abbrev pub settle : Bytes → Server V → World V → Server V
  settle id s w =
      let s' = shared_after s w in
      record s' { rooms = drop_rooms w.disposed (put id w.room s'.rooms) }

  abbrev pub settled :
      Bytes
      → Server V
      → Option (Result (Unit {0}) × World V)
      → Option (Result (Unit {0}) × Server V)
  settled id s none = none
  settled id s (some (r, w)) = some (r, settle id s w)

  -- An operation of a managed room; a room that is gone does nothing.
  unfoldable pub in_room : Bytes → (Room V → Run (World V) (Unit {0})) → Run (Server V) (Unit {0})
  unfolding find put send_frames answer drop_rooms
  in_room id op s = elim (find id s.rooms) [
    | none ↦ done s
    | some room ↦ settled id s (op room (world_of s room))
  ]

-- Two levels of calls of `dispose` are enough: Room/Ending.
abbrev pub levels : ℕ
levels = 2

module _ (json : Json) (hooks : Bytes → Hooks json.Value) where
  open json use {Value}

  unfoldable pub run_handler : Handler → Value → Run (Server Value) (Unit {0})
  unfolding in_room on_game_message on_player_left
  run_handler (game_message id) payload s =
      in_room id (λ room. on_game_message json (hooks room.room_type) payload) s
  run_handler (player_left id) payload s =
      in_room id (λ room. on_player_left json (hooks room.room_type) levels payload) s
  run_handler (admin_reply n) payload s =
      some (ok tt, record s { replies = s.replies ++ (n, payload) ∷ [] })

  -- A handler that throws ends the loop over the listeners.
  unfoldable pub publish : Bytes → Value → Run (Server Value) (Unit {0})
  unfolding run_handler
  publish key payload s =
      PubSub.publish
        (λ h (o : Option (Result (Unit {0}) × Server Value)). after o (λ _. run_handler h payload))
        key s.channels (some (ok tt, s))
