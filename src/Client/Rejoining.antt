-- ===== src/Client/Rejoining.antt =====
-- A client that is connected again: `handle_client_id_set` of client/src/client.cpp after the end of
-- the connection before.
use blueboat_cpp.Run.{Run, modify, lift, with_state, after, done, hook, ◌>>=◌, ◌>>◌}
use blueboat_cpp.Client.Connection.{
  lost, leave_all, set_connected, Incoming, message, Outcome, answered, receive, connection, round,
  connection_manager_loop, if_goes_on, is_upgrade, greet, close_link, retry, read_response_headers,
}
use blueboat_cpp.Socket.{Socket}
use mathlib.Core.List.{append_assoc, append-nil}
use blueboat_cpp.Client.Rooms.{
  join_existing, no_room, join_content, send_frame, rejoin, rejoin_all, handle_client_id_set,
  handle_ws_payload,
}
use blueboat_cpp.Sio.{Msgpack, build_event_frame, parse_frame, ParsedFrame, event}
use blueboat_cpp.Json.{Json}
use blueboat_cpp.Base.{
  ℕ, zero, suc, ◌≡◌, refl, sym, ap, ◌∙◌, inl, inr, Bool, true, false, Option, none, some, List, [],
  ◌∷◌, ◌++◌, arith, if◌then◌else◌, Bool-cases, Bytes, codes, bytes_eq, bytes_eq_refl, is_empty,
  get_elem?, any, All, ok,
}
use blueboat_cpp.Protocol
use blueboat_cpp.Client.State.{Client, Room, Listeners, room_or, replace, set_joined}

-- What is sent of a room, and stays as it is when the room is left.
abbrev asked : {V : Type 0} → Room V → Bytes × V
asked room = (room.id, room.initial_join_options)

module _ {V : Type 0} (no_room : Room V) (never : no_room.joined ≡ false) where
  abbrev leave : Room V → Room V
  leave room = record room { joined = false }

  abbrev room_at : ℕ → List (Room V) → Room V
  room_at p heap = room_or no_room (get_elem? heap p)

  abbrev leave_heap : List ℕ → List (Room V) → List (Room V)
  leave_heap [] heap = heap
  leave_heap (p ∷ ps) heap = leave_heap ps (replace p leave heap)

  asked-replace :
      (p q : ℕ) (heap : List (Room V))
      → asked (room_at p (replace q leave heap)) ≡ asked (room_at p heap)
  asked-replace p q [] = refl
  asked-replace zero zero (r ∷ rs) = refl
  asked-replace zero (suc q) (r ∷ rs) = refl
  asked-replace (suc p) zero (r ∷ rs) = refl
  asked-replace (suc p) (suc q) (r ∷ rs) = asked-replace p q rs

  asked-leave_heap :
      (p : ℕ) (ps : List ℕ) (heap : List (Room V))
      → asked (room_at p (leave_heap ps heap)) ≡ asked (room_at p heap)
  asked-leave_heap p [] heap = refl
  asked-leave_heap p (q ∷ ps) heap =
      asked-leave_heap p ps (replace q leave heap) ∙ asked-replace p q heap

  joined-replace :
      (p q : ℕ) (heap : List (Room V))
      → (room_at p heap).joined ≡ false
      → (room_at p (replace q leave heap)).joined ≡ false
  joined-replace p q [] h = h
  joined-replace zero zero (r ∷ rs) h = refl
  joined-replace zero (suc q) (r ∷ rs) h = h
  joined-replace (suc p) zero (r ∷ rs) h = h
  joined-replace (suc p) (suc q) (r ∷ rs) h = joined-replace p q rs h

  joined-replaced :
      (p : ℕ) (heap : List (Room V)) → (room_at p (replace p leave heap)).joined ≡ false
  joined-replaced p [] = never
  joined-replaced zero (r ∷ rs) = refl
  joined-replaced (suc p) (r ∷ rs) = joined-replaced p rs

  joined-leave_heap :
      (p : ℕ) (ps : List ℕ) (heap : List (Room V))
      → (room_at p heap).joined ≡ false
      → (room_at p (leave_heap ps heap)).joined ≡ false
  joined-leave_heap p [] heap h = h
  joined-leave_heap p (q ∷ ps) heap h =
      joined-leave_heap p ps (replace q leave heap) (joined-replace p q heap h)

  -- Every room that is left is not joined any more.
  leave_heap-All :
      (ps : List ℕ) (heap : List (Room V))
      → All (λ p. (room_at p (leave_heap ps heap)).joined ≡ false) ps
  leave_heap-All [] heap = tt
  leave_heap-All (p ∷ ps) heap = (
    joined-leave_heap p ps (replace p leave heap) (joined-replaced p heap),
    leave_heap-All ps (replace p leave heap),
  )

module _ (json : Json) (msgpack : Msgpack json.Value) where
  open json use {Value}

  abbrev at : ℕ → List (Room Value) → Room Value
  at p heap = room_at (no_room json msgpack) refl p heap

  -- The request to join a room, where it has an id.
  abbrev request : Bytes × Value → List (Bool × Bytes)
  request (id, options) =
      if is_empty id
      then []
      else (
        true,
        build_event_frame json msgpack Protocol.join_room (join_content json msgpack id options),
      )
        ∷ []

  abbrev pub requests : List ℕ → List (Room Value) → List (Bool × Bytes)
  requests [] heap = []
  requests (p ∷ ps) heap = request (asked (at p heap)) ++ requests ps heap

  -- One of the rooms at these places has the id of the room at this one.
  abbrev IsKnown : List (Room Value) → List ℕ → ℕ → Type 0
  IsKnown heap ps p = any (λ q. bytes_eq (at q heap).id (at p heap).id) ps ≡ true

  IsKnown-cons :
      (heap : List (Room Value)) (p : ℕ) (ps qs : List ℕ)
      → All (IsKnown heap ps) qs
      → All (IsKnown heap (p ∷ ps)) qs
  IsKnown-cons heap p ps [] h = tt
  IsKnown-cons heap p ps (q ∷ qs) h = (ground arith, IsKnown-cons heap p ps qs h.1)

  All-IsKnown : (heap : List (Room Value)) (ps : List ℕ) → All (IsKnown heap ps) ps
  All-IsKnown heap [] = tt
  All-IsKnown heap (p ∷ ps) =
      (rw (bytes_eq_refl (at p heap).id) refl, IsKnown-cons heap p ps ps (All-IsKnown heap ps))

  module _ (listeners : Listeners Value) where
    -- The listeners return and leave the client as it is.
    pub record AreSilent : Type 0 where
      pub connecting : (c : Client Value) → listeners.on_connect c ≡ (ok tt, c)
      pub disconnecting :
          (why : Bytes) (c : Client Value) → listeners.on_disconnect why c ≡ (ok tt, c)
      pub attempt : (n : ℕ) (c : Client Value) → listeners.on_reconnect_attempt n c ≡ (ok tt, c)
      pub reconnecting : (n : ℕ) (c : Client Value) → listeners.on_reconnect n c ≡ (ok tt, c)
      pub id_saved : (id : Bytes) (c : Client Value) → listeners.on_id_saved id c ≡ (ok tt, c)
      pub join_attempt : (p : ℕ) (c : Client Value) → listeners.on_join_attempt p c ≡ (ok tt, c)
      pub left : (p : ℕ) (c : Client Value) → listeners.on_leave p c ≡ (ok tt, c)

    abbrev plus : List (Bool × Bytes) → Client Value → Client Value
    plus frames c = record c { sent = c.sent ++ frames }

    module _ (silent : AreSilent) where
      rejoin-request :
          (p : ℕ) (c : Client Value)
          → c.connected ≡ true
          → (at p c.heap).joined ≡ false
          → IsKnown c.heap c.rooms p
          → rejoin json msgpack listeners p c ≡ some (ok tt, plus (request (asked (at p c.heap))) c)
      unfolding join_existing send_frame
      rejoin-request p c on new known = elim (Bool-cases (is_empty (at p c.heap).id)) [
        | inl e ↦ rw e (ap (λ fs. some (ok tt, record c { sent = fs })) (sym (append-nil c.sent)))
        | inr e ↦ rw (e, silent.join_attempt p c, new, on, known) refl
      ]

      rejoin_all-requests :
          (ps : List ℕ) (c : Client Value)
          → c.connected ≡ true
          → All (λ p. (at p c.heap).joined ≡ false) ps
          → All (IsKnown c.heap c.rooms) ps
          → rejoin_all json msgpack listeners ps c ≡ some (ok tt, plus (requests ps c.heap) c)
      unfolding rejoin_all
      rejoin_all-requests [] c on new known =
          ap (λ fs. some (ok tt, record c { sent = fs })) (sym (append-nil c.sent))
      rejoin_all-requests (p ∷ ps) c on new known = rw (rejoin-request p c on new.0 known.0) (
          rejoin_all-requests ps (plus (request (asked (at p c.heap))) c) on new.1 known.1
          ∙ ap (λ fs. some (ok tt, record c { sent = fs }))
              (append_assoc c.sent (request (asked (at p c.heap))) (requests ps c.heap)))

      requests-leave_heap :
          (ps qs : List ℕ) (heap : List (Room Value))
          → requests ps (leave_heap (no_room json msgpack) refl qs heap) ≡ requests ps heap
      requests-leave_heap [] qs heap = refl
      requests-leave_heap (p ∷ ps) qs heap =
          ap (λ r. request r ++ requests ps (leave_heap (no_room json msgpack) refl qs heap))
            (asked-leave_heap (no_room json msgpack) refl p qs heap)
          ∙ ap (◌++◌ (request (asked (at p heap)))) (requests-leave_heap ps qs heap)

      module _ (socket : Socket) (host : Bytes) (port : ℕ) where
        abbrev emptied : Client Value → Client Value
        emptied c = record c { heap = leave_heap (no_room json msgpack) refl c.rooms c.heap }

        leave_all-heap :
            (ps : List ℕ) (c : Client Value)
            → leave_all json msgpack listeners socket host port ps c
              ≡ some (ok tt, record c { heap = leave_heap (no_room json msgpack) refl ps c.heap })
        unfolding leave_all
        leave_all-heap [] c = refl
        leave_all-heap (p ∷ ps) c =
            rw (silent.left p (set_joined p false c)) (leave_all-heap ps (set_joined p false c))

        lost-emptied :
            (c : Client Value)
            → lost json msgpack listeners socket host port c ≡ some (ok (some 1), emptied c)
        lost-emptied c =
            rw
              (
                silent.disconnecting (codes "transport close") c,
                leave_all-heap c.rooms c,
                silent.attempt 1 (emptied c),
              )
              refl

        -- how the loop goes on behind a round
        abbrev pub go_on :
            List (Outcome socket.State Value) → Option ℕ → Run (Client Value) (Unit {0})
        go_on os =
            if_goes_on json msgpack listeners socket host port
              (λ n. connection_manager_loop json msgpack listeners socket host port n os)

        -- what a connection does behind its receive loop
        abbrev pub ending : Run (Client Value) (Option ℕ)
        ending =
            modify (set_connected false)
            >> with_state (λ c.
              if c.running then lost json msgpack listeners socket host port else lift (ok none))

        abbrev pub named_frame : Value → ParsedFrame Value → ParsedFrame Value
        named_frame v frame = record frame {
          kind = event;
          event_name = Protocol.client_id_set;
          content = v;
        }

        abbrev rejoined : Bytes → Client Value → Client Value
        rejoined id c = record (emptied c) {
          id = id;
          ping_interval_ms = some 25000;
          connected = true;
          sent = c.sent ++ requests c.rooms c.heap;
        }

        id_set :
            (v : Value) (id : Bytes) (c : Client Value)
            → json.get_string v ≡ ok id
            → handle_client_id_set json msgpack listeners v
                (record (emptied c) { ping_interval_ms = some 25000; connected = true })
              ≡ some (ok tt, rejoined id c)
        unfolding handle_client_id_set
        id_set v id c named =
            let c₁ : Client Value = record (emptied c) {
              ping_interval_ms = some 25000;
              connected = true;
              id = id;
            } in
            rw
              (
                named,
                silent.id_saved id c₁,
                rejoin_all-requests c.rooms c₁ refl
                    (leave_heap-All (no_room json msgpack) refl c.rooms c.heap)
                    (All-IsKnown c₁.heap c.rooms),
                requests-leave_heap c.rooms c.rooms c.heap,
              )
              (ap some (silent.connecting (record c₁ { sent = c.sent ++ requests c.rooms c.heap })))

        connection-rejoined :
            (v : Value) (id payload : Bytes) (b : Bool) (frame : ParsedFrame Value) (now : ℕ)
            (es : List (Incoming Value)) (c : Client Value)
            → c.running ≡ true
            → parse_frame json msgpack b payload ≡ ok (named_frame v frame)
            → json.get_string v ≡ ok id
            → connection json msgpack listeners socket host port 1 now
                (message b payload ∷ es)
                (emptied c)
              ≡ (receive json msgpack listeners socket host port now es >> ending) (rejoined id c)
        unfolding connection handle_ws_payload receive bytes_eq
        connection-rejoined v id payload b frame now es c on parsed named =
            let c₁ : Client Value = record (emptied c) {
              ping_interval_ms = some 25000;
              connected = true;
            } in
            let after_greeting =
              receive json msgpack listeners socket host port now (message b payload ∷ es)
              >> ending in
            ap (λ c₂. (greet json msgpack listeners socket host port 1 >> after_greeting) c₂)
              (ap (λ (t : Bool). if t then c₁ else close_link c₁) on)
            ∙ ap
                (λ (t : Bool).
                  after ((if t then hook (listeners.on_reconnect 1) else done) c₁)
                    (λ _. after_greeting))
                on
            ∙ rw (silent.reconnecting 1 c₁, parsed, id_set v id c named) refl

        -- With listeners that leave the client as it is: when a connection of a running client ends,
        -- and the next attempt is answered by the upgrade, and the first message that comes then sets
        -- the client's id, the loop goes on from there, with whatever comes next on the connection
        -- and its end, with a client that has sent a request to join, with the room's id and its
        -- first options, for each of its rooms that has an id, in the order of its rooms; none of its
        -- rooms is joined until the server answers; it has the id, is connected, and has the
        -- default interval between pings, and nothing else has changed.
        pub reconnect-requests :
            (v : Value) (id payload : Bytes) (b : Bool) (frame : ParsedFrame Value)
            (s : socket.State) (now : ℕ) (es : List (Incoming Value))
            (os : List (Outcome socket.State Value)) (c : Client Value)
            → c.running ≡ true
            → is_upgrade (read_response_headers socket s) ≡ true
            → parse_frame json msgpack b payload ≡ ok (named_frame v frame)
            → json.get_string v ≡ ok id
            → (lost json msgpack listeners socket host port
                  >>= go_on (answered s now (message b payload ∷ es) ∷ os))
                c
              ≡ ((receive json msgpack listeners socket host port now es >> ending) >>= go_on os)
                  (record (emptied c) {
                    id = id;
                    ping_interval_ms = some 25000;
                    connected = true;
                    sent = c.sent ++ requests c.rooms c.heap;
                  })
        unfolding connection_manager_loop round
        reconnect-requests v id payload b frame s now es os c on up parsed named =
            let try_again = retry json msgpack listeners socket host port 1 refused in
            ap (λ r. after r (go_on (answered s now (message b payload ∷ es) ∷ os)))
              (lost-emptied c)
            ∙ ap
                (λ (t : Bool).
                  (if t
                      then round json msgpack listeners socket host port 1
                          (answered s now (message b payload ∷ es))
                        >>= go_on os
                      else done)
                    (emptied c))
                on
            ∙ ap
                (λ (u : Bool).
                  after
                    ((if u
                        then connection json msgpack listeners socket host port 1 now
                            (message b payload ∷ es)
                        else try_again)
                      (emptied c))
                    (go_on os))
                up
            ∙ ap (λ r. after r (go_on os))
                (connection-rejoined v id payload b frame now es c on parsed named)
          where
            refused : Bytes
            refused = codes "server rejected the WebSocket upgrade"
