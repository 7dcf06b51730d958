-- ===== src/Room/State.antt =====
-- The state of a room, and what of the server it reaches: the store, the channels, the timers, the
-- frames that it sends, what it publishes, and the reports that it has been disposed. `V` is
-- the type of JSON values. `Client` is a client's identity: its two closures always send through
-- the room and remove from it. The lock on the game state is held throughout each operation.
use blueboat_cpp.Base.{ℕ, ◌+◌, ◌*◌, Bool, Option, List, Bytes, bytes_eq, Assoc, Exec}
use blueboat_cpp.Snapshot.{SimpleClient}
use blueboat_cpp.Storage.{Storage}
use blueboat_cpp.PubSub.{Subscription, Listener}
use blueboat_cpp.Scheduler.{Scheduler}

pub record Room (V : Type 0) : Type 0 where
  pub state : V
  pub initial_game_values : V
  pub room_id : Bytes
  pub room_type : Bytes
  pub options : V
  pub creator_options : V
  pub metadata : V
  pub owner : SimpleClient
  pub clients : List SimpleClient
  pub disposing : Bool
  pub game_message_sub : Subscription
  pub player_left_sub : Subscription
  pub auto_dispose_timer : Option ℕ

-- What a room is told when it is initialized, but for the store, the channels and the server's two
-- functions, which belong to the world.
pub record RoomInitOptions (V : Type 0) : Type 0 where
  pub room_id : Bytes
  pub room_type : Bytes
  pub owner : SimpleClient
  pub options : V
  pub creator_options : V
  pub initial_game_values : V

-- the two closures that a room subscribes, and the one of the admin API
pub data Handler : Type 0 where
  game_message : Bytes → Handler
  player_left : Bytes → Handler
  admin_reply : ℕ → Handler

pub record Frame (V : Type 0) : Type 0 where
  pub session_id : Bytes
  pub event : Bytes
  pub content : V

pub record World (V : Type 0) : Type 0 where
  pub room : Room V
  pub storage : Storage
  pub channels : Assoc (List (Listener Handler))
  -- a timer's callback is the id of the room that it disposes
  pub scheduler : Scheduler Bytes
  pub now : ℕ
  pub frames : List (Frame V)
  pub published : List (Bytes × V)
  pub disposed : List Bytes

-- The virtual methods that a game overrides, and the listeners that it adds. They are the game's
-- code: a parameter, free to change the world and to throw. A method that waits for ever, or locks what
-- its thread has locked, is none of these: what is stated of a call holds where the game returns.
pub record Hooks (V : Type 0) : Type 0 where
  pub on_create : V → Exec (World V) (Unit {0})
  pub can_client_join : SimpleClient → V → Exec (World V) (Unit {0})
  pub on_join_listeners : SimpleClient → Exec (World V) (Unit {0})
  pub on_join : SimpleClient → V → Exec (World V) (Unit {0})
  pub on_message : SimpleClient → Bytes → V → Exec (World V) (Unit {0})
  pub on_leave_listeners : SimpleClient → Bool → Exec (World V) (Unit {0})
  pub on_leave : SimpleClient → Bool → Exec (World V) (Unit {0})
  pub before_dispose : Exec (World V) (Unit {0})
  pub on_dispose : Exec (World V) (Unit {0})
  pub on_external_message : Bytes → V → Exec (World V) (Unit {0})

-- AUTO_DISPOSE_AFTER, in milliseconds
abbrev pub auto_dispose_after : ℕ
auto_dispose_after = (2 * 60 + 30) * 60 * 1000

abbrev pub has_session : Bytes → SimpleClient → Bool
has_session session_id c = bytes_eq c.session_id session_id
