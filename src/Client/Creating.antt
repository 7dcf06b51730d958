-- ===== src/Client/Creating.antt =====
-- The server's answer to a request to create a room: `create_room` of client/src/client.cpp.
use blueboat_cpp.Client.Rooms.{
  remember, join_content, forget_request, set_id, at_place, register_room_events, create_key,
  error_key, no_room, send_frame, join_existing, run_handler,
}
use blueboat_cpp.Sio.{Msgpack, build_event_frame}
use blueboat_cpp.Json.{Json}
use blueboat_cpp.Base.{
  ℕ, zero, suc, ◌≡◌, refl, ap, ◌∙◌, ◌≢◌, inl, inr, Bool, true, false, none, some, List, [], ◌∷◌,
  ◌++◌, arith, Bool-cases, Bytes, codes, bytes_eq, bytes_eq_refl, get_elem?, any, Assoc, find, put,
  erase, find-put, find-erase, ok,
}
use blueboat_cpp.Protocol
use blueboat_cpp.Client.State.{
  Client, Room, envelope, Listeners, replace, Handler, room_or, join_error, created,
}

module _ (json : Json) (msgpack : Msgpack json.Value) (listeners : Listeners json.Value) where
  open json use {Value}

  -- The listeners that are called return and leave the client as it is.
  pub record LetCreate : Type 0 where
    pub create : (p : ℕ) (id : Bytes) (c : Client Value) → listeners.on_create p id c ≡ (ok tt, c)
    pub join_attempt : (p : ℕ) (c : Client Value) → listeners.on_join_attempt p c ≡ (ok tt, c)

  get_elem?-replace :
      (p : ℕ) (f : Room Value → Room Value) (heap : List (Room Value)) (room : Room Value)
      → get_elem? heap p ≡ some room
      → get_elem? (replace p f heap) p ≡ some (f room)
  get_elem?-replace p f [] room e = cc
  get_elem?-replace zero f (r ∷ rs) room e = cc
  get_elem?-replace (suc p) f (r ∷ rs) room e = get_elem?-replace p f rs room e

  any-append_last : (f : ℕ → Bool) (ps : List ℕ) (p : ℕ) → f p ≡ true → any f (ps ++ p ∷ []) ≡ true
  any-append_last f [] p e = rw e refl
  any-append_last f (q ∷ ps) p e = ground (arith, any-append_last f ps p)

  -- None of the rooms at these places is this one or has the id.
  abbrev pub HasOthers : Client Value → ℕ → Bytes → List ℕ → Type 0
  HasOthers c p id [] = Unit
  HasOthers c p id (q ∷ qs) =
      (q ≢ p) × (bytes_eq (at_place json msgpack q c).id id ≡ false) × HasOthers c p id qs

  get_elem?-replace_other :
      (p q : ℕ) (f : Room Value → Room Value) (heap : List (Room Value))
      → q ≢ p
      → get_elem? (replace p f heap) q ≡ get_elem? heap q
  get_elem?-replace_other p q f [] n = refl
  get_elem?-replace_other zero zero f (r ∷ rs) n = absurd (n refl)
  get_elem?-replace_other zero (suc q) f (r ∷ rs) n = refl
  get_elem?-replace_other (suc p) zero f (r ∷ rs) n = refl
  get_elem?-replace_other (suc p) (suc q) f (r ∷ rs) n =
      get_elem?-replace_other p q f rs (λ e. n (ap suc e))

  -- The client after the answer: the room has its id, the answer's two handlers are gone, and the
  -- room's messages have theirs; the room is asked for, and a room with the id is one of the
  -- client's: this one, unless it or another with the id was one of them already.
  pub record HasCreated (c c' : Client Value) (p : ℕ) (options : Value) (request_id id : Bytes)
      : Type 0 where
    pub named : (at_place json msgpack p c').id ≡ id
    pub no_answer : find (create_key json msgpack listeners request_id) c'.event_handlers ≡ none
    pub no_error : find (error_key json msgpack listeners request_id) c'.event_handlers ≡ none
    pub hears : find (codes "message-" ++ id) c'.event_handlers ≡ some (envelope p)
    pub asked :
        c'.sent
        ≡ c.sent
          ++ (
            true,
            build_event_frame json msgpack Protocol.join_room
                (join_content json msgpack id options),
          )
            ∷ []
    pub known : any (λ q. bytes_eq (at_place json msgpack q c').id id) c'.rooms ≡ true
    pub listed : HasOthers c p id c.rooms → c'.rooms ≡ c.rooms ++ p ∷ []

  module _ (p : ℕ) (options : Value) (request_id id : Bytes) where
    abbrev named_room : Client Value → Client Value
    named_room c = set_id json msgpack listeners p id c

    abbrev settled : Client Value → Client Value
    settled c =
        forget_request json msgpack listeners request_id
          (register_room_events json msgpack p (named_room c))

    abbrev frame : Bool × Bytes
    frame = (
      true,
      build_event_frame json msgpack Protocol.join_room (join_content json msgpack id options),
    )

    abbrev requested : Client Value → Client Value
    requested c = record (settled c) { sent = c.sent ++ frame ∷ [] }

    abbrev created_room : Client Value → Client Value
    created_room c = remember json msgpack p id (requested c)

    remember-same :
        (c : Client Value)
        → ((remember json msgpack p id c).event_handlers ≡ c.event_handlers)
          × ((remember json msgpack p id c).sent ≡ c.sent)
          × ((remember json msgpack p id c).heap ≡ c.heap)
    remember-same c =
        elim (Bool-cases (any (λ q. bytes_eq (at_place json msgpack q c).id id) c.rooms)) [
          | inl e ↦ rw e (refl, refl, refl)
          | inr e ↦ rw e (refl, refl, refl)
        ]

    remember-known :
        (c : Client Value)
        → (at_place json msgpack p c).id ≡ id
        → any
            (λ q. bytes_eq (at_place json msgpack q (remember json msgpack p id c)).id id)
            (remember json msgpack p id c).rooms
          ≡ true
    remember-known c named =
        elim (Bool-cases (any (λ q. bytes_eq (at_place json msgpack q c).id id) c.rooms)) [
          | inl e ↦ rw e e
          | inr e ↦ rw e (
              any-append_last (λ q. bytes_eq (at_place json msgpack q c).id id) c.rooms p
                (rw named (bytes_eq_refl id)))
        ]

    HasOthers-any :
        (c : Client Value) (qs : List ℕ)
        → HasOthers c p id qs
        → any (λ q. bytes_eq (at_place json msgpack q (named_room c)).id id) qs ≡ false
    HasOthers-any c [] h = refl
    HasOthers-any c (q ∷ qs) (n, d, h) =
        rw
          (
            get_elem?-replace_other p q (λ r. record r { id = id }) c.heap n,
            d,
            HasOthers-any c qs h,
          )
          refl

    remember-listed :
        (c : Client Value)
        → any (λ q. bytes_eq (at_place json msgpack q c).id id) c.rooms ≡ false
        → (remember json msgpack p id c).rooms ≡ c.rooms ++ p ∷ []
    remember-listed c e = rw e refl

    find-erased :
        (e k j : Bytes) (h : Handler Value) (m : Assoc (Handler Value))
        → bytes_eq e j ≡ false
        → bytes_eq k j ≡ false
        → find j (erase e (erase k (put j h m))) ≡ some h
    find-erased e k j h m e₁ e₂ =
        find-erase e j (erase k (put j h m))
        ∙ rw e₁ (find-erase k j (put j h m) ∙ rw e₂ (find-put j j h m ∙ rw (bytes_eq_refl j) refl))

    erased_twice : (e k : Bytes) (m : Assoc (Handler Value)) → find k (erase e (erase k m)) ≡ none
    erased_twice e k m =
        ground (arith, find-erase e k (erase k m), find-erase k k m, bytes_eq_refl k)

    erased : (e : Bytes) (m : Assoc (Handler Value)) → find e (erase e m) ≡ none
    erased e m = find-erase e e m ∙ rw (bytes_eq_refl e) refl

    abbrev registered : Bytes → Assoc (Handler Value) → Assoc (Handler Value)
    registered id' m =
        put (codes "message-" ++ id') (envelope p) (put (id' ++ codes "-error") (join_error p) m)

    hears-registered :
        (id' e k : Bytes) (m : Assoc (Handler Value))
        → id' ≡ id
        → bytes_eq e (codes "message-" ++ id) ≡ false
        → bytes_eq k (codes "message-" ++ id) ≡ false
        → find (codes "message-" ++ id) (erase e (erase k (registered id' m))) ≡ some (envelope p)
    hears-registered id' e k m same e₁ e₂ =
        ap (λ i. find (codes "message-" ++ id) (erase e (erase k (registered i m)))) same
        ∙ find-erased e k (codes "message-" ++ id) (envelope p) _ e₁ e₂

    module _ (c : Client Value) (room : Room Value) (there : get_elem? c.heap p ≡ some room) where
      at_named : at_place json msgpack p (named_room c) ≡ record room { id = id }
      at_named =
          ap (room_or (no_room json msgpack))
            (get_elem?-replace p (λ r. record r { id = id }) c.heap room there)

      id_named : (at_place json msgpack p (named_room c)).id ≡ id
      id_named = ap (λ r. r.id) at_named

      created_room-HasCreated :
          bytes_eq (create_key json msgpack listeners request_id) (codes "message-" ++ id) ≡ false
          → bytes_eq (error_key json msgpack listeners request_id) (codes "message-" ++ id) ≡ false
          → HasCreated c (created_room c) p options request_id id
      unfolding register_room_events
      created_room-HasCreated apart₁ apart₂ =
          let same = remember-same (requested c) in
          let ck = create_key json msgpack listeners request_id in
          let ek = error_key json msgpack listeners request_id in
          record {
            named = ap (λ h. (room_or (no_room json msgpack) (get_elem? h p)).id) same.2 ∙ id_named;
            no_answer = ap (find ck) same.0 ∙ erased_twice ek ck _;
            no_error = ap (find ek) same.0 ∙ erased ek _;
            hears =
                ap (find (codes "message-" ++ id)) same.0
                ∙ hears-registered _ ek ck c.event_handlers id_named apart₂ apart₁;
            asked = same.1;
            known = remember-known (requested c) id_named;
            listed = λ h. remember-listed (requested c) (HasOthers-any c c.rooms h);
          }

      -- With listeners that leave the client as it is: when the server answers a connected client's
      -- request to create a room with an id, for whose messages the request's own handlers are not
      -- taken, the room, which is not joined yet, has that id, the request's two handlers are gone
      -- and the room's messages have theirs, one request to join is sent with the options of the
      -- creation, and a room with that id is among the client's rooms: the new one is, behind the
      -- others, where none of them is the new one or has the id.
      pub run_handler-HasCreated :
          (v : Value)
          → LetCreate
          → json.get_string v ≡ ok id
          → c.connected ≡ true
          → room.joined ≡ false
          → bytes_eq (create_key json msgpack listeners request_id) (codes "message-" ++ id) ≡ false
          → bytes_eq (error_key json msgpack listeners request_id) (codes "message-" ++ id) ≡ false
          → (c' : Client Value) × (run_handler json msgpack listeners
                (created p options request_id)
                v
                c
              ≡ some (ok tt, c'))
            × HasCreated c c' p options request_id id
      unfolding run_handler join_existing send_frame register_room_events
      run_handler-HasCreated v calls read on new apart₁ apart₂ = (
        created_room c,
        rw
            (
              read,
              calls.create p id (settled c),
              calls.join_attempt p (settled c),
              ap (λ r. r.joined) at_named ∙ new,
              on,
            )
            refl,
        created_room-HasCreated apart₁ apart₂,
      )
