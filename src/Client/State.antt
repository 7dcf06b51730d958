-- ===== src/Client/State.antt =====
-- The state of a client: client/include/blueboat_client/client.hpp and room.hpp. Rooms are shared
-- objects, so they stand in a heap and are referred to by their place in it. What the mutex guards
-- is taken in one step at a time. The listeners that an application adds are a parameter.
use blueboat_cpp.Base.{ℕ, zero, suc, Bool, Option, none, some, List, [], ◌∷◌, Bytes, Assoc, Exec}

pub record Room (V : Type 0) : Type 0 where
  pub id : Bytes
  pub joined : Bool
  pub initial_join_options : V

-- The closures in `event_handlers_`, with what they capture; `this` is the one client.
pub data Handler (V : Type 0) : Type 0 where
  -- register_room_events: `<id>-error` and `message-<id>`
  join_error : ℕ → Handler V
  envelope : ℕ → Handler V
  -- create_room: `<request>-create` and `<request>-error`
  created : ℕ → V → Bytes → Handler V
  create_error : ℕ → Bytes → Handler V

pub record Client (V : Type 0) : Type 0 where
  pub id : Bytes
  pub session_id : Bytes
  -- `none` is a negative number
  pub ping_interval_ms : Option ℕ
  pub running : Bool
  -- whether `ws_` holds a connection
  pub connected : Bool
  -- the places of rooms_
  pub rooms : List ℕ
  pub event_handlers : Assoc (Handler V)
  pub heap : List (Room V)
  -- the messages given to the connection, and whether each is binary
  pub sent : List (Bool × Bytes)
  -- how often a connection was told to close
  pub closes : ℕ

-- The listeners of a room or of the client, as one call each. They are the application's code: a
-- parameter, free to change the client and to throw.
pub record Listeners (V : Type 0) : Type 0 where
  pub on_connect : Exec (Client V) (Unit {0})
  pub on_connect_error : V → Exec (Client V) (Unit {0})
  pub on_disconnect : Bytes → Exec (Client V) (Unit {0})
  pub on_reconnect : ℕ → Exec (Client V) (Unit {0})
  pub on_reconnect_attempt : ℕ → Exec (Client V) (Unit {0})
  pub on_id_saved : Bytes → Exec (Client V) (Unit {0})
  -- of the room at a place in the heap
  pub on_join_attempt : ℕ → Exec (Client V) (Unit {0})
  pub on_create : ℕ → Bytes → Exec (Client V) (Unit {0})
  pub on_join : ℕ → Exec (Client V) (Unit {0})
  pub on_join_error : ℕ → V → Exec (Client V) (Unit {0})
  pub on_message : ℕ → Bytes → V → Exec (Client V) (Unit {0})
  pub on_leave : ℕ → Exec (Client V) (Unit {0})

module _ {V : Type 0} where
  -- The room at a place; `no_room` stands for a place outside the heap, which no code holds.
  abbrev pub room_or : Room V → Option (Room V) → Room V
  room_or no_room none = no_room
  room_or no_room (some room) = room

  abbrev pub replace : ℕ → (Room V → Room V) → List (Room V) → List (Room V)
  replace p f [] = []
  replace zero f (room ∷ rooms) = f room ∷ rooms
  replace (suc p) f (room ∷ rooms) = room ∷ replace p f rooms

  abbrev pub update_room : ℕ → (Room V → Room V) → Client V → Client V
  update_room p f c = record c { heap = replace p f c.heap }

  abbrev pub set_joined : ℕ → Bool → Client V → Client V
  set_joined p b = update_room p (λ room. record room { joined = b })
