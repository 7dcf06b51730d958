-- ===== src/ChatClient/Talk.antt =====
-- What is sent of what is typed.
use blueboat_cpp.Client.Rooms.{at_place, room_send, send_frame, message_content, send_room_message}
use blueboat_cpp.ChatClient.{read_lines, on_line, Console, Input, line, say}
use blueboat_cpp.Sio.{Msgpack, build_event_frame}
use blueboat_cpp.Json.{Json}
use mathlib.Core.List.{append_assoc, append-nil}
use blueboat_cpp.Client.State.{Client}
use blueboat_cpp.Protocol
use blueboat_cpp.Client.Connection.{disconnect}
use blueboat_cpp.Base.{
  ℕ, suc, ◌≡◌, sym, ap, ◌∙◌, Bool, true, false, some, List, [], ◌∷◌, ◌++◌, if◌then◌else◌, Bytes,
  codes, bytes_eq, All,
}

module _ (json : Json) (msgpack : Msgpack json.Value) where
  open json use {Value}

  abbrev pub typed : List Bytes → List (Input Value)
  typed [] = []
  typed (t ∷ ts) = line t ∷ typed ts

  -- The frames of what is said in a room.
  abbrev pub frames : Bytes → List Bytes → List (Bool × Bytes)
  frames room_id [] = []
  frames room_id (t ∷ ts) =
      (
        true,
        build_event_frame json msgpack Protocol.send_message
            (message_content json msgpack room_id (codes "CHAT") (json.of_string t)),
      )
      ∷ frames room_id ts

  abbrev at_work : Client Value → ℕ → ℕ → Console Value
  at_work c p n = record { client = c; room = some p; not_joined = n }

  abbrev given : List (Bool × Bytes) → Client Value → Client Value
  given fs c = record c { sent = c.sent ++ fs }

  on_line-joined :
      (p n : ℕ) (t : Bytes) (c : Client Value)
      → (at_place json msgpack p c).joined ≡ true
      → c.connected ≡ true
      → on_line json msgpack t (at_work c p n)
        ≡ at_work (given (frames (at_place json msgpack p c).id (t ∷ [])) c) p n
  unfolding on_line room_send send_room_message send_frame
  on_line-joined p n t c joined up =
      let k = at_work c p n in
      let sent = given (frames (at_place json msgpack p c).id (t ∷ [])) c in
      ap
        (λ b.
          if b
          then record k { client = say json msgpack t (some p) c }
          else record k { not_joined = suc n })
        joined
      ∙ ap (λ b. at_work (if b then sent else c) p n) up

  -- While the client is connected and in a room that is joined, and nothing else happens: each line
  -- that is typed before "quit" is sent to the room as a chat message, in order, and nothing else;
  -- what is typed behind "quit" is not; and then the client is told to disconnect.
  pub read_lines-sent :
      (p n : ℕ) (lines later : List Bytes) (c : Client Value)
      → (at_place json msgpack p c).joined ≡ true
      → c.connected ≡ true
      → All (λ t. bytes_eq t (codes "quit") ≡ false) lines
      → read_lines json msgpack (typed (lines ++ codes "quit" ∷ later)) (at_work c p n)
        ≡ at_work (disconnect (given (frames (at_place json msgpack p c).id lines) c)) p n
  unfolding read_lines bytes_eq
  read_lines-sent p n [] later c joined up calm =
      ap (λ fs. at_work (disconnect (record c { sent = fs })) p n) (sym (append-nil c.sent))
  read_lines-sent p n (t ∷ lines) later c joined up calm =
      let id = (at_place json msgpack p c).id in
      let c' = given (frames id (t ∷ [])) c in
      rw (calm.0, on_line-joined p n t c joined up)
        (read_lines-sent p n lines later c' joined up calm.1
          ∙ ap (λ fs. at_work (disconnect (record c { sent = fs })) p n)
              (append_assoc c.sent (frames id (t ∷ [])) (frames id lines)))
