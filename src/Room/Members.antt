-- ===== src/Room/Members.antt =====
-- Who is in a room after clients join and leave.
use blueboat_cpp.Room.Ending.{remove_client_by-found}
use mathlib.Core.List.{append_assoc}
use blueboat_cpp.Protocol.{joined_room, removed_from_room}
use blueboat_cpp.Base.{
  ℕ, ◌≡◌, refl, sym, ap, ◌∙◌, ◌≢◌, inl, inr, Bool, true, Option, none, some, List, [], ◌∷◌, ◌++◌,
  arith, Bool-cases, Option-cases, Bytes, bytes_eq_refl, is_empty, find_if, erase_first, Result, ok,
  throws,
}
use blueboat_cpp.Json.{Json}
use blueboat_cpp.Snapshot.{SimpleClient}
use blueboat_cpp.Run.{Run, after}
use blueboat_cpp.Room.State.{World, Hooks, has_session}
use blueboat_cpp.Room.Lifecycle.{
  add_client, send, take_ownership, push_client, leave_room, remove_client_by, drop_client,
  dispose_if_empty, remove_client, dispose, leave_room,
}

find_if-append :
    (p : SimpleClient → Bool) (c : SimpleClient) (cs : List SimpleClient)
    → p c ≡ true
    → find_if p (cs ++ c ∷ c ∷ []) ≢ none
find_if-append p c [] h e = ground arith
find_if-append p c (x ∷ cs) h e = ground (arith, find_if-append p c cs)

find_if-none-erase_first :
    (p : SimpleClient → Bool) (cs : List SimpleClient)
    → find_if p cs ≡ none
    → find_if p (erase_first p cs) ≡ none
find_if-none-erase_first p [] h = refl
find_if-none-erase_first p (x ∷ cs) h = ground (arith, find_if-none-erase_first p cs)

find_if-erase_first :
    (p : SimpleClient → Bool) (c : SimpleClient) (cs : List SimpleClient)
    → p c ≡ true
    → find_if p (erase_first p (cs ++ c ∷ c ∷ [])) ≢ none
find_if-erase_first p c [] h e = ground arith
find_if-erase_first p c (x ∷ cs) h e =
    ground (arith, find_if-erase_first p c cs, find_if-append p c cs)

module _ (json : Json) (hooks : Hooks json.Value) where
  open json use {Value}

  -- What a game does when clients join and leave does not add or remove clients.
  pub record KeepClients : Type 0 where
    pub joined :
        (c : SimpleClient) (w : World Value)
        → (hooks.on_join_listeners c w).1.room.clients ≡ w.room.clients
    pub join :
        (c : SimpleClient) (o : Value) (w : World Value)
        → (hooks.on_join c o w).1.room.clients ≡ w.room.clients
    pub left :
        (c : SimpleClient) (b : Bool) (w : World Value)
        → (hooks.on_leave_listeners c b w).1.room.clients ≡ w.room.clients
    pub leave :
        (c : SimpleClient) (b : Bool) (w : World Value)
        → (hooks.on_leave c b w).1.room.clients ≡ w.room.clients

  -- whatever the outcome, the clients are these
  abbrev pub Has : List SimpleClient → Option (Result (Unit {0}) × World Value) → Type 0
  Has cs none = Unit
  Has cs (some (r, w)) = w.room.clients ≡ cs

  Has-after :
      (cs : List SimpleClient) (r : Result (Unit {0}) × World Value)
      (m : Run (World Value) (Unit {0}))
      → r.1.room.clients ≡ cs
      → ((w : World Value) → w.room.clients ≡ cs → Has cs (m w))
      → Has cs (after (some r) (λ _. m))
  Has-after cs (ok u, w) m h k = k w h
  Has-after cs (throws e, w) m h k = h

  clients-take_ownership :
      (c : SimpleClient) (w : World Value)
      → (take_ownership json hooks c w).room.clients ≡ w.room.clients
  clients-take_ownership c w = ground arith

  module _ (keep : KeepClients) where
    add_client-Has :
        (c : SimpleClient) (o : Value) (w : World Value)
        → Has (w.room.clients ++ c ∷ []) (add_client json hooks c o w)
    unfolding add_client
    add_client-Has c o w =
        let w₁ =
          send json c joined_room json.null
            (take_ownership json hooks c (push_client json hooks c w)) in
        Has-after _ (hooks.on_join_listeners c w₁) _
          (keep.joined c w₁ ∙ clients-take_ownership c (push_client json hooks c w))
          λ w₂ h₂. keep_join c o w₂ h₂
      where
        keep_join :
            (c : SimpleClient) (o : Value) (w₂ : World Value)
            → w₂.room.clients ≡ w.room.clients ++ c ∷ []
            → Has (w.room.clients ++ c ∷ []) (some (hooks.on_join c o w₂))
        keep_join c o w₂ h = keep.join c o w₂ ∙ h

    Has-none :
        (cs : List SimpleClient) (o : Option (Result (Unit {0}) × World Value))
        (r : Result (Unit {0})) (w : World Value)
        → o ≡ some (r, w)
        → Has cs o
        → w.room.clients ≡ cs
    Has-none cs none r w e h = cc
    Has-none cs (some (r', w')) r w e h = ground arith

    not_empty :
        (again : Run (World Value) (Unit {0})) (c : SimpleClient) (cs : List SimpleClient)
        (w : World Value)
        → w.room.clients ≡ c ∷ cs
        → Has (c ∷ cs) (dispose_if_empty json hooks again w)
    not_empty again c cs w h = elim (Bool-cases (is_empty w.room.clients)) [
      | inl e ↦ absurd (cc (e, ap is_empty h))
      | inr e ↦ rw e h
    ]

    leave-Has :
        (again : Run (World Value) (Unit {0})) (sid : Bytes) (b : Bool) (w : World Value)
        (x c : SimpleClient) (cs : List SimpleClient)
        → erase_first (has_session sid) w.room.clients ≡ c ∷ cs
        → Has (c ∷ cs) (leave_room json hooks again sid b x w)
    unfolding send
    leave-Has again sid b w x c cs e =
        let w₁ = send json x removed_from_room json.null (drop_client json hooks sid w) in
        Has-after _ (hooks.on_leave_listeners x b w₁) _ (keep.left x b w₁ ∙ e) λ w₂ h₂.
          Has-after _ (hooks.on_leave x b w₂) _ (keep.leave x b w₂ ∙ h₂)
            λ w₃ h₃. not_empty again c cs w₃ h₃

    stays_in :
        (again : Run (World Value) (Unit {0})) (sid : Bytes) (b : Bool) (w w' : World Value)
        (r : Result (Unit {0})) (x : SimpleClient) (rest : List SimpleClient)
        → erase_first (has_session sid) w.room.clients ≡ rest
        → find_if (has_session sid) rest ≢ none
        → leave_room json hooks again sid b x w ≡ some (r, w')
        → find_if (has_session sid) w'.room.clients ≢ none
    stays_in again sid b w w' r x [] h stays e gone = absurd (stays refl)
    stays_in again sid b w w' r x (c ∷ cs) h stays e gone = stays (
        ap (find_if (has_session sid))
          (sym (Has-none (c ∷ cs) _ r w' e (leave-Has again sid b w x c cs h)))
        ∙ gone)

    still_in :
        (again : Run (World Value) (Unit {0})) (sid : Bytes) (b : Bool) (w w' : World Value)
        (r : Result (Unit {0}))
        → find_if (has_session sid) (erase_first (has_session sid) w.room.clients) ≢ none
        → remove_client_by json hooks again sid b w ≡ some (r, w')
        → find_if (has_session sid) w'.room.clients ≢ none
    still_in again sid b w w' r stays e =
        elim (Option-cases (find_if (has_session sid) w.room.clients)) [
          | inl absent ↦
              absurd (stays (find_if-none-erase_first (has_session sid) w.room.clients absent))
          | inr (x, found) ↦
              stays_in again sid b w w' r x (erase_first (has_session sid) w.room.clients) refl
                stays (sym (remove_client_by-found json hooks again sid b w x found) ∙ e)
        ]

    -- In a game whose code adds and removes no clients when clients join and leave, a client whose
    -- session joined twice is still in the room after one removal of the session, as at its
    -- disconnection, whatever the game's code throws meanwhile.
    remove_client-join_twice :
        (f : ℕ) (b : Bool) (c : SimpleClient) (o p : Value) (r₁ r₂ r₃ : Result (Unit {0}))
        (w w₁ w₂ w₃ : World Value)
        → add_client json hooks c o w ≡ some (r₁, w₁)
        → add_client json hooks c p w₁ ≡ some (r₂, w₂)
        → remove_client json hooks f c.session_id b w₂ ≡ some (r₃, w₃)
        → find_if (has_session c.session_id) w₃.room.clients ≢ none
    unfolding remove_client
    remove_client-join_twice f b c o p r₁ r₂ r₃ w w₁ w₂ w₃ e₁ e₂ e₃ =
        let sid = c.session_id in
        let once = Has-none _ _ r₁ w₁ e₁ (add_client-Has c o w) in
        let twice = Has-none _ _ r₂ w₂ e₂ (add_client-Has c p w₁) in
        let members =
          twice ∙ ap (λ l. l ++ c ∷ []) once ∙ append_assoc w.room.clients (c ∷ []) (c ∷ []) in
        still_in (dispose json hooks f) sid b w₂ w₃ r₃
          (λ gone. find_if-erase_first (has_session sid) c w.room.clients (bytes_eq_refl sid) (
            ap (λ l. find_if (has_session sid) (erase_first (has_session sid) l)) (sym members)
            ∙ gone))
          e₃
