-- ===== src/Server/Connection/Departure.antt =====
-- What is left of a connection when it has ended.
use blueboat_cpp.Room.Messages.{on_game_message, on_player_left}
use blueboat_cpp.Sio.{Msgpack}
use mathlib.Core.Path.{subst}
use blueboat_cpp.Server.Requests.{handle_client_disconnect}
use blueboat_cpp.PubSub.{Listener}
use blueboat_cpp.Json.{Json}
use blueboat_cpp.Snapshot.{SimpleClient}
use blueboat_cpp.Run.{Run, modify, after, ◌>>◌}
use blueboat_cpp.Base.{
  ℕ, ◌≡◌, refl, ap, ◌∙◌, inl, inr, Option, none, some, List, [], ◌∷◌, Option-cases, Bytes,
  bytes_eq_refl, find, erase, find-erase, Result, ok, throws,
}
use blueboat_cpp.PubSub
use blueboat_cpp.Protocol
use blueboat_cpp.Server.State.{
  Server, send_if, send_frame_to_client, send_frames, answer, world_of, settled, in_room,
  run_handler, publish, levels,
}
use blueboat_cpp.Room.State.{
  Hooks, Room, Handler, game_message, player_left, admin_reply, Frame, World,
}
use blueboat_cpp.Server.Connection.{
  Session, Link, with_link, on_server, connect, start_activity, end_activity, Event, welcome,
  receive, session,
}

-- Where it returns normally, the state is such.
abbrev Gives {ℓ κ} : {S : Type ℓ} {A : Type 0} → (S → Type κ) → Option (Result A × S) → Type κ
Gives P none = Unit
Gives P (some (throws e, s)) = Unit
Gives P (some (ok a, s)) = P s

Gives-after {ℓ κ} :
    {S : Type ℓ} {A B : Type 0} (P : S → Type κ) (o : Option (Result A × S)) (f : A → Run S B)
    → ((a : A) (s : S) → Gives P (f a s))
    → Gives P (after o f)
Gives-after P none f h = tt
Gives-after P (some (throws e, s)) f h = tt
Gives-after P (some (ok a, s)) f h = h a s

module _ {V : Type 0} where
  -- The connections are the same afterwards, also where it throws.
  abbrev Kept : Server V → Option (Result (Unit {0}) × Server V) → Type 0
  Kept s none = Unit
  Kept s (some (r, s')) = s'.connections ≡ s.connections

  send_if-Kept :
      (o : Option SimpleClient) (f : Frame V) (s : Server V)
      → (send_if o f s).connections ≡ s.connections
  send_if-Kept none f s = refl
  send_if-Kept (some info) f s = refl

  send_frames-Kept :
      (fs : List (Frame V)) (s : Server V) → (send_frames fs s).connections ≡ s.connections
  unfolding send_frames send_frame_to_client
  send_frames-Kept [] s = refl
  send_frames-Kept (f ∷ fs) s =
      send_frames-Kept fs (send_if (find f.session_id s.connections) f s)
      ∙ send_if-Kept (find f.session_id s.connections) f s

  answer-Kept : (ps : List (Bytes × V)) (s : Server V) → (answer ps s).connections ≡ s.connections
  unfolding answer
  answer-Kept [] s = refl
  answer-Kept ((k, v) ∷ ps) s = answer-Kept ps _

  settled-Kept :
      (id : Bytes) (s : Server V) (o : Option (Result (Unit {0}) × World V))
      → Kept s (settled id s o)
  settled-Kept id s none = tt
  settled-Kept id s (some (r, w)) = answer-Kept w.published _ ∙ send_frames-Kept w.frames _

  in_room-Kept :
      (id : Bytes) (op : Room V → Run (World V) (Unit {0})) (s : Server V)
      → Kept s (in_room id op s)
  unfolding in_room
  in_room-Kept id op s = elim (Option-cases (find id s.rooms)) [
    | inl e ↦ rw (in_room, e) refl
    | inr (room, e) ↦ rw (in_room, e) (settled-Kept id s (op room (world_of s room)))
  ]

module _ (json : Json) (hooks : Bytes → Hooks json.Value) where
  open json use {Value}

  run_handler-Kept :
      (h : Handler) (v : Value) (s : Server Value) → Kept s (run_handler json hooks h v s)
  unfolding run_handler
  run_handler-Kept (game_message id) v s =
      in_room-Kept id (λ room. on_game_message json (hooks room.room_type) v) s
  run_handler-Kept (player_left id) v s =
      in_room-Kept id (λ room. on_player_left json (hooks room.room_type) levels v) s
  run_handler-Kept (admin_reply n) v s = refl

  after-Kept :
      (h : Handler) (v : Value) (s : Server Value) (o : Option (Result (Unit {0}) × Server Value))
      → Kept s o
      → Kept s (after o (λ _. run_handler json hooks h v))
  after-Kept h v s none k = tt
  after-Kept h v s (some (throws e, s')) k = k
  after-Kept h v s (some (ok u, s')) k =
      trans_Kept (run_handler json hooks h v s') (run_handler-Kept h v s')
    where
      trans_Kept : (o : Option (Result (Unit {0}) × Server Value)) → Kept s' o → Kept s o
      trans_Kept none k' = tt
      trans_Kept (some (r, s'')) k' = k' ∙ k

  deliver-Kept :
      (v : Value) (ls : List (Listener Handler)) (s : Server Value)
      (o : Option (Result (Unit {0}) × Server Value))
      → Kept s o
      → Kept s (PubSub.deliver (λ h q. after q (λ _. run_handler json hooks h v)) ls o)
  unfolding PubSub.deliver
  deliver-Kept v [] s o k = k
  deliver-Kept v (l ∷ ls) s o k = deliver-Kept v ls s _ (after-Kept l.handler v s o k)

  publish-Kept : (key : Bytes) (v : Value) (s : Server Value) → Kept s (publish json hooks key v s)
  unfolding publish PubSub.publish
  publish-Kept key v s = elim (Option-cases (find key s.channels)) [
    | inl e ↦ rw (PubSub.publish, e) refl
    | inr (ls, e) ↦ rw (PubSub.publish, e) (deliver-Kept v ls s (some (ok tt, s)) refl)
  ]

  -- The server knows nothing of the session any more.
  pub record IsGone (session_id : Bytes) (t : Session Value) : Type 0 where
    pub connection : find session_id t.server.connections ≡ none
    pub activity : find session_id t.server.last_activity ≡ none

  abbrev ending : Bytes → Run (Session Value) (Unit {0})
  ending sid =
      on_server (handle_client_disconnect json hooks sid) >> on_server (modify (end_activity sid))

  gone :
      (sid : Bytes) (l : Link) (s : Server Value) (o : Option (Result (Unit {0}) × Server Value))
      → find sid s.connections ≡ none
      → Kept s o
      → Gives (IsGone sid) (after (with_link l o) (λ _. on_server (modify (end_activity sid))))
  gone sid l s none h k = tt
  gone sid l s (some (throws e, s')) h k = tt
  gone sid l s (some (ok u, s')) h k = record {
    connection = ap (find sid) k ∙ h;
    activity = find-erase sid sid s'.last_activity ∙ rw (bytes_eq_refl sid) refl;
  }

  ending-Gives : (sid : Bytes) (t : Session Value) → Gives (IsGone sid) (ending sid t)
  unfolding handle_client_disconnect
  ending-Gives sid t =
      let s = record t.server { connections = erase sid t.server.connections } in
      gone sid t.link s (publish json hooks Protocol.player_left (json.of_string sid) s)
        (find-erase sid sid t.server.connections ∙ rw (bytes_eq_refl sid) refl)
        (publish-Kept Protocol.player_left (json.of_string sid) s)

  Gives-eq :
      (sid : Bytes) (t : Session Value) (o : Option (Result (Unit {0}) × Session Value))
      → Gives (IsGone sid) o
      → o ≡ some (ok tt, t)
      → IsGone sid t
  Gives-eq sid t o g e = subst (Gives (IsGone sid)) e g

  -- When a connection has ended and nothing was thrown meanwhile, whatever was received, and
  -- whatever the games and other threads did, the server has neither a connection nor a time of
  -- activity for its session.
  pub session-IsGone :
      (msgpack : Msgpack Value) (client : SimpleClient) (now : ℕ)
      (es : List (Event json hooks msgpack)) (t t' : Session Value)
      → session json hooks msgpack client now es t ≡ some (ok tt, t')
      → IsGone client.session_id t'
  unfolding session
  session-IsGone msgpack client now es t t' e =
      let sid = client.session_id in
      let received = receive json hooks msgpack client es in
      let active = on_server (modify (start_activity sid now)) in
      let welcomed = welcome json hooks msgpack client in
      let g₁ : (u : Session Value) → Gives (IsGone sid) ((received >> ending sid) u) =
        λ u. Gives-after (IsGone sid) (received u) (λ _. ending sid) (λ _. ending-Gives sid) in
      let g₂ : (u : Session Value) → Gives (IsGone sid) ((active >> (received >> ending sid)) u) =
        λ u. Gives-after (IsGone sid) (active u) (λ _. received >> ending sid) (λ _. g₁) in
      let g₃ : (u : Session Value)
          → Gives (IsGone sid) ((welcomed >> (active >> (received >> ending sid))) u) =
        λ u.
          Gives-after (IsGone sid) (welcomed u) (λ _. active >> (received >> ending sid))
            (λ _. g₂) in
      Gives-eq sid t' (session json hooks msgpack client now es t)
        (Gives-after (IsGone sid) (on_server (modify (connect client)) t)
          (λ _. welcomed >> (active >> (received >> ending sid))) (λ _. g₃))
        e
