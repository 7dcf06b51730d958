-- ===== src/ChatRoom.antt =====
-- The sample game, examples/server/chat_room.cpp: a room that keeps the messages of a chat. What
-- happens to the world during its wait for a client is an argument.
pub mod History
use blueboat_cpp.Snapshot.{SimpleClient}
use blueboat_cpp.Room.Lifecycle.{send, broadcast}
use blueboat_cpp.Json.{Json}
use blueboat_cpp.Base.{
  ℕ, Bool, true, false, List, [], ◌∷◌, ◌++◌, if◌then◌else◌, Bytes, codes, bytes_eq, is_empty,
  Result, Exec, ok, throws,
}
use blueboat_cpp.Room.State.{Hooks, World}

-- The calls of nlohmann::json that only this game makes: `state[key]` on a value that can be written,
-- which may add a null, and array.push_back(v).
pub record Items (json : Json) : Type 0 where
  pub index : json.Value → Bytes → Result (json.Value × json.Value)
  pub push_back : json.Value → json.Value → Result json.Value

abbrev pub messages : Bytes
messages = codes "messages"

abbrev pub bot : Bytes
bot = codes "Botsy"

module _ (json : Json) (items : Items json) where
  open json use {Value}

  abbrev pub chat_message : Bytes → Bytes → Value
  chat_message text sender_id =
      json.of_object
        ((codes "message", json.of_string text) ∷ (codes "senderId", json.of_string sender_id) ∷ [])

  abbrev pub with_messages : List Value → Value
  with_messages vs = json.of_object ((messages, json.of_array vs) ∷ [])

  -- Room::set_state
  unfoldable pub set_state : Value → World Value → World Value
  set_state new_state w = record w { room = record w.room { state = new_state } }

  abbrev pub created : Result Bytes → World Value → Result (Unit {0}) × World Value
  created (throws e) w = (throws e, w)
  created (ok text) w = (ok tt, set_state (with_messages (chat_message text bot ∷ [])) w)

  unfoldable pub on_create : Value → Exec (World Value) (Unit {0})
  unfolding set_state
  on_create options w =
      created
        (json.value_string w.room.initial_game_values (codes "initialBotMessage")
          (codes "Welcome to the chat!"))
        w

  abbrev pub replaced : Value → Result Value → World Value → Result (Unit {0}) × World Value
  replaced msg (throws e) w = (throws e, w)
  replaced msg (ok state) w = (ok tt, broadcast json (codes "MESSAGE") msg (set_state state w))

  abbrev pub pushed : Value → Value → Result Value → World Value → Result (Unit {0}) × World Value
  pushed msg state (throws e) w = (throws e, w)
  pushed msg state (ok list) w = replaced msg (json.assign state messages list) w

  abbrev pub indexed :
      Value → Result (Value × Value) → World Value → Result (Unit {0}) × World Value
  indexed msg (throws e) w = (throws e, w)
  indexed msg (ok (state, list)) w = pushed msg state (items.push_back list msg) (set_state state w)

  unfoldable pub add_message : Bytes → Bytes → Exec (World Value) (Unit {0})
  unfolding set_state broadcast
  add_message text sender_id w =
      indexed (chat_message text sender_id) (items.index w.room.state messages) w

  abbrev pub caught_up :
      SimpleClient → Result (Value × Value) → World Value → Result (Unit {0}) × World Value
  caught_up client (throws e) w = (throws e, w)
  caught_up client (ok (state, list)) w =
      (ok tt, send json client (codes "MESSAGES") list (set_state state w))

  unfoldable pub catch_up : SimpleClient → Exec (World Value) (Unit {0})
  unfolding set_state send
  catch_up client w = caught_up client (items.index w.room.state messages) w

  unfoldable pub on_join : SimpleClient → Value → Exec (World Value) (Unit {0})
  unfolding catch_up
  on_join client options w = catch_up client w

  abbrev pub text_of : Value → Result Bytes
  text_of v = if json.is_string v then json.get_string v else json.dump v

  abbrev pub chat : SimpleClient → Result Bytes → World Value → Result (Unit {0}) × World Value
  chat client (throws e) w = (throws e, w)
  chat client (ok text) w = add_message text client.id w

  unfoldable pub on_message : SimpleClient → Bytes → Value → Exec (World Value) (Unit {0})
  unfolding add_message send bytes_eq
  on_message client key content w =
      let w' =
        if bytes_eq key (codes "LATENCY")
        then send json client (codes "LATENCY") content w
        else w in
      if is_empty key
      then (ok tt, w)
      else if bytes_eq key (codes "CHAT")
      then chat client (text_of content) w'
      else (ok tt, w')

  unfoldable pub before_dispose : Exec (World Value) (Unit {0})
  unfolding broadcast
  before_dispose w = (ok tt, broadcast json (codes "DISPOSED") json.null w)

  module _ (waits : SimpleClient → ℕ → World Value → Bool × World Value) where
    -- Room::allow_reconnection: the wait is an argument.
    abbrev pub allow_reconnection : SimpleClient → ℕ → World Value → Bool × World Value
    allow_reconnection client seconds w =
        if w.room.disposing then (false, w) else waits client seconds w

    abbrev pub unless_reconnected :
        SimpleClient → Bool × World Value → Result (Unit {0}) × World Value
    unless_reconnected client (true, w) = (ok tt, w)
    unless_reconnected client (false, w) =
        add_message (client.id ++ codes " has left the room") bot w

    unfoldable pub on_leave : SimpleClient → Bool → Exec (World Value) (Unit {0})
    unfolding add_message
    on_leave client intentional w = unless_reconnected client (allow_reconnection client 30 w)

    -- The methods that it overrides, and Room's own, which do nothing.
    abbrev pub chat_room : Hooks Value
    chat_room = record {
      on_create = on_create;
      can_client_join = λ client options w. (ok tt, w);
      on_join_listeners = λ client w. (ok tt, w);
      on_join = on_join;
      on_message = on_message;
      on_leave_listeners = λ client intentional w. (ok tt, w);
      on_leave = on_leave;
      before_dispose = before_dispose;
      on_dispose = λ w. (ok tt, w);
      on_external_message = λ key content w. (ok tt, w);
    }
