-- ===== src/ChatClient.antt =====
-- The sample client, examples/client/main.cpp: lines of the standard input, and what its listener
-- for connections does. What it prints of messages is left out.
pub mod Talk
use blueboat_cpp.Run.{Run, modify, after}
use blueboat_cpp.Client.Rooms.{room_send, at_place, join_room, create_room}
use blueboat_cpp.Sio.{Msgpack}
use blueboat_cpp.Json.{Json}
use blueboat_cpp.Client.State.{Client, Listeners}
use blueboat_cpp.Client.Rooms.{create_room}
use blueboat_cpp.Json.{object}
use blueboat_cpp.Client.Connection.{disconnect}
use blueboat_cpp.Base.{
  ℕ, suc, Bool, false, Option, none, some, List, [], ◌∷◌, if◌then◌else◌, Bytes, codes, bytes_eq,
  is_empty, length, Result,
}

pub record Console (V : Type 0) : Type 0 where
  pub client : Client V
  -- `room`, guarded by a mutex: a place in the client's heap
  pub room : Option ℕ
  -- how often "[not joined yet]" was printed
  pub not_joined : ℕ

-- A line of the input, or a step of the client's other thread.
pub data Input (V : Type 0) : Type 0 where
  line : Bytes → Input V
  acts : (Console V → Console V) → Input V

module _ (json : Json) (msgpack : Msgpack json.Value) where
  open json use {Value}

  abbrev pub keep_room : ℕ → Console Value → Console Value
  keep_room p k = record k { room = some p }

  abbrev with_client :
      Console Value
      → Option (Result (Unit {0}) × Client Value)
      → Option (Result (Unit {0}) × Console Value)
  with_client k none = none
  with_client k (some (r, c)) = some (r, record k { client = c })

  -- The listener of on_connect; `request_id` is the random id of a request.
  unfoldable pub on_connect : Listeners Value → Bytes → Bytes → Run (Console Value) (Unit {0})
  unfolding create_room join_room
  on_connect listeners existing_room_id request_id k =
      let p = length k.client.heap in
      after
        (if is_empty existing_room_id
          then with_client k (
              modify (create_room json msgpack listeners (codes "Chat") (object json) request_id)
                k.client)
          else with_client k
              (join_room json msgpack listeners existing_room_id (object json) k.client))
        (λ _. modify (keep_room p))

  -- whether there is a room that is joined
  abbrev pub is_joined : Console Value → Bool
  is_joined k = elim k.room [ none ↦ false | some p ↦ (at_place json msgpack p k.client).joined ]

  abbrev pub say : Bytes → Option ℕ → Client Value → Client Value
  say text none c = c
  say text (some p) c = room_send json msgpack p (codes "CHAT") (json.of_string text) c

  unfoldable pub on_line : Bytes → Console Value → Console Value
  unfolding room_send
  on_line text k =
      if is_joined k
      then record k { client = say text k.room k.client }
      else record k { not_joined = suc k.not_joined }

  abbrev pub leave : Console Value → Console Value
  leave k = record k { client = disconnect k.client }

  -- The loop of `main`, and what follows it; behind the last input, the stream ends.
  unfoldable pub read_lines : List (Input Value) → Console Value → Console Value
  unfolding on_line disconnect bytes_eq
  read_lines [] k = leave k
  read_lines (line text ∷ more) k =
      let rest = read_lines more (on_line text k) in
      if bytes_eq text (codes "quit") then leave k else rest
  read_lines (acts f ∷ more) k = read_lines more (f k)
