-- ===== src/Server/Escapes.antt =====
-- Which requests let an exception out to the connection's thread, where nothing catches it.
use blueboat_cpp.Room.Messages.{on_player_left}
use blueboat_cpp.Base.{
  ℕ, ◌≡◌, refl, ap, ◌∙◌, Bool, true, false, ◌||◌, Option, none, some, List, [], ◌∷◌, ◌++◌,
  if◌then◌else◌, Bytes, codes, is_empty, Assoc, find, Result, ok, throws,
}
use blueboat_cpp.Json.{Json}
use blueboat_cpp.Protocol
use blueboat_cpp.Snapshot.{SimpleClient}
use blueboat_cpp.PubSub.{Listener}
use blueboat_cpp.PubSub
use blueboat_cpp.Run.{Run, modify, after, on_throw, done, try_catch}
use blueboat_cpp.Room.State.{Room, World, Hooks, Handler, player_left}
use blueboat_cpp.Server.State.{Server, publish, run_handler, world_of, settle, in_room}
use blueboat_cpp.Server.Requests.{
  Draws, handle_create, handle_join, handle_send, message_payload, tell, message, try_create,
  try_join,
}

module _ (json : Json) (hooks : Bytes → Hooks json.Value) where
  open json use {Value}

  -- It did not throw.
  abbrev pub Contained : Option (Result (Unit {0}) × Server Value) → Type 0
  Contained none = Unit
  Contained (some (ok u, s)) = Unit
  Contained (some (throws e, s)) = ⊥

  on_throw-Contained :
      (o : Option (Result (Unit {0}) × Server Value)) (f : Bytes → Server Value → Server Value)
      → Contained (on_throw o (λ e. modify (f e)))
  on_throw-Contained none f = tt
  on_throw-Contained (some (ok u, s)) f = tt
  on_throw-Contained (some (throws e, s)) f = tt

  create-Contained :
      (draws : Draws json hooks) (c : SimpleClient) (v : Value) (uid name : Bytes)
      (s : Server Value) (b : Bool)
      → Contained (
          (if b
              then done
              else try_catch (try_create json hooks draws c uid name v) (λ what.
                modify (tell json hooks c (uid ++ codes "-error") (message json hooks what))))
            s)
  create-Contained draws c v uid name s true = tt
  create-Contained draws c v uid name s false = on_throw-Contained _ _

  join-Contained :
      (c : SimpleClient) (v : Value) (id : Bytes) (s : Server Value) (b : Bool)
      → Contained (
          (if b
              then done
              else try_catch (try_join json hooks c id v) (λ what.
                modify (tell json hooks c (id ++ codes "-error") (message json hooks what))))
            s)
  join-Contained c v id s true = tt
  join-Contained c v id s false = on_throw-Contained _ _

  -- A request to create a room, whose `uniqueRequestId` and `type` read as strings, whatever else is
  -- in it, and a request to join one, whose `roomId` reads as a string, whatever else is in that,
  -- throw nothing, whatever the store, the rooms and their games do.
  pub requests-Contained :
      (draws : Draws json hooks) (c : SimpleClient) (creation joining : Value) (uid name id : Bytes)
      (s : Server Value)
      → json.value_string creation (codes "uniqueRequestId") [] ≡ ok uid
      → json.value_string creation (codes "type") [] ≡ ok name
      → json.value_string joining (codes "roomId") [] ≡ ok id
      → Contained (handle_create json hooks draws c creation s)
        × Contained (handle_join json hooks c joining s)
  unfolding handle_create handle_join
  requests-Contained draws c creation joining uid name id s e₁ e₂ e₃ = (
    rw (e₁, e₂) (create-Contained draws c creation uid name s (is_empty name || is_empty uid)),
    rw e₃ (join-Contained c joining id s (is_empty id)),
  )

  -- A room's handler on the channel of leaving players throws where the payload is no string.
  deliver_throws :
      (payload : Value) (ls : List (Listener Handler)) (e : Bytes) (s : Server Value)
      → PubSub.deliver
          (λ h q. after q (λ _. run_handler json hooks h payload))
          ls
          (some (throws e, s))
        ≡ some (throws e, s)
  unfolding PubSub.deliver
  deliver_throws payload [] e s = refl
  deliver_throws payload (l ∷ ls) e s = deliver_throws payload ls e s

  on_player_left_throws :
      (h : Hooks Value) (f : ℕ) (payload : Value) (e : Bytes) (w : World Value)
      → json.get_string payload ≡ throws e
      → on_player_left json h f payload w ≡ some (throws e, w)
  unfolding on_player_left
  on_player_left_throws h f payload e w bad = rw bad refl

  in_room_throws :
      (id e : Bytes) (op : Room Value → Run (World Value) (Unit {0})) (room : Room Value)
      (s : Server Value)
      → find id s.rooms ≡ some room
      → op room (world_of s room) ≡ some (throws e, world_of s room)
      → in_room id op s ≡ some (throws e, settle id s (world_of s room))
  unfolding in_room
  in_room_throws id e op room s managed bad = rw (in_room, managed, bad) refl

  run_handler_throws :
      (payload : Value) (e id : Bytes) (room : Room Value) (s : Server Value)
      → json.get_string payload ≡ throws e
      → find id s.rooms ≡ some room
      → run_handler json hooks (player_left id) payload s
        ≡ some (throws e, settle id s (world_of s room))
  unfolding run_handler
  run_handler_throws payload e id room s bad managed =
      in_room_throws id e (λ room. on_player_left json (hooks room.room_type) 2 payload) room s
        managed (on_player_left_throws (hooks room.room_type) 2 payload e (world_of s room) bad)

  publish_first :
      (key : Bytes) (payload : Value) (l : Listener Handler) (ls : List (Listener Handler))
      (ps : Assoc (List (Listener Handler))) (s : Server Value)
      → find key ps ≡ some (l ∷ ls)
      → PubSub.publish
          (λ h q. after q (λ _. run_handler json hooks h payload))
          key
          ps
          (some (ok tt, s))
        ≡ PubSub.deliver
            (λ h q. after q (λ _. run_handler json hooks h payload))
            ls
            (run_handler json hooks l.handler payload s)
  unfolding PubSub.publish PubSub.deliver
  publish_first key payload l ls ps s at_channel = rw (PubSub.publish, at_channel) refl

  publish_throws :
      (key : Bytes) (payload : Value) (e sub id : Bytes) (room : Room Value)
      (ls : List (Listener Handler)) (s : Server Value)
      → json.get_string payload ≡ throws e
      → find key s.channels ≡ some (record { id = sub; handler = player_left id } ∷ ls)
      → find id s.rooms ≡ some room
      → publish json hooks key payload s ≡ some (throws e, settle id s (world_of s room))
  unfolding publish
  publish_throws key payload e sub id room ls s bad at_channel managed =
      publish_first key payload _ ls s.channels s at_channel
      ∙ ap (PubSub.deliver (λ h q. after q (λ _. run_handler json hooks h payload)) ls)
          (run_handler_throws payload e id room s bad managed)
      ∙ deliver_throws payload ls e (settle id s (world_of s room))

  -- A client that sends a message to the "room" with the name of the channel of leaving players
  -- makes the request throw, if the first listener there is a managed room's: the payload is an
  -- object, which the listener reads as a string.
  pub handle_send_throws :
      (c : SimpleClient) (v key inner : Value) (e sub id : Bytes) (room : Room Value)
      (ls : List (Listener Handler)) (s : Server Value)
      → json.value_string v (codes "room") [] ≡ ok Protocol.player_left
      → json.contains v (codes "key") ≡ true
      → json.at v (codes "key") ≡ ok key
      → json.value v (codes "data") json.null ≡ ok inner
      → json.get_string (message_payload json hooks c key inner) ≡ throws e
      → find Protocol.player_left s.channels
        ≡ some (record { id = sub; handler = player_left id } ∷ ls)
      → find id s.rooms ≡ some room
      → (s' : Server Value) × (handle_send json hooks c v s ≡ some (throws e, s'))
  unfolding handle_send
  handle_send_throws c v key inner e sub id room ls s e₁ e₂ e₃ e₄ bad at_channel managed = (
    settle id s (world_of s room),
    rw (e₁, e₂, e₃, e₄)
        (publish_throws Protocol.player_left (message_payload json hooks c key inner) e sub id room
          ls s bad at_channel managed),
  )
