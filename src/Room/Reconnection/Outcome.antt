-- ===== src/Room/Reconnection/Outcome.antt =====
-- What a wait for a client comes to.
use blueboat_cpp.Callback.Calls.{call_stops, marked, AreQuiet, lasting, call-AreQuiet}
use blueboat_cpp.Room.Reconnection.{
  joins, clears, OnJoin, of_wait, of_game, Wait, Lobby, on_joined, without, leaves, Event,
  on_leave_returns, returned, joined, left, elapsed, happen, allow_reconnection, resolve, is_client,
  fires, elapses,
}
use blueboat_cpp.Snapshot.{SimpleClient}
use blueboat_cpp.Callback.{Entry, hits, add, remove}
use blueboat_cpp.Base.{
  ◌≡◌, refl, sym, ◌∙◌, Bool, true, false, none, some, List, [], ◌∷◌, ◌++◌, arith, Bytes, bytes_eq,
  bytes_eq_iff, is_empty, any,
}

abbrev AreGames : List (Entry OnJoin) → Type 0
AreGames [] = Unit
AreGames (e ∷ es) = (e.callback ≡ of_game) × AreGames es

abbrev ours : Bytes → Bytes → Bool → Entry OnJoin
ours id sub b = record { callback = of_wait id; once = false; called_once = b; id = sub }

abbrev lobby : Bytes → Bytes → List SimpleClient → List (Entry OnJoin) → Bool → Lobby
lobby id sub cs os b = record {
  clients = cs;
  on_join_listeners = os ++ ours id sub b ∷ [];
  wait = record {
    client_id = id;
    promise = none;
    resolved = false;
    join_sub = some sub;
    timeout = true;
  };
}

hits-nil : (es : List (Entry OnJoin)) → hits [] es ≡ false
hits-nil [] = refl
hits-nil (e ∷ es) = hits-nil es

module _ (id sub : Bytes) where
  quiet :
      (c : SimpleClient) (w : Wait) (all os : List (Entry OnJoin)) (b : Bool)
      → AreGames os
      → bytes_eq c.id id ≡ false
      → AreQuiet (clears c w) all (os ++ ours id sub b ∷ [])
  unfolding clears
  quiet c w all [] b g other = (rw other (hits-nil all), tt)
  quiet c w all (o ∷ os) b g other = (rw (g.0, hits-nil all) refl, quiet c w all os b g.1 other)

  marked-lasting :
      (os : List (Entry OnJoin)) (b : Bool)
      → marked (lasting (os ++ ours id sub b ∷ [])) ≡ marked (lasting os) ++ ours id sub true ∷ []
  marked-lasting [] b = refl
  marked-lasting (o ∷ os) b = ground (arith, marked-lasting os b)

  AreGames-lasting : (os : List (Entry OnJoin)) → AreGames os → AreGames (marked (lasting os))
  AreGames-lasting [] g = tt
  AreGames-lasting (o ∷ os) g = ground (arith, AreGames-lasting os g.1)

  joins-others :
      (c : SimpleClient) (cs : List SimpleClient) (os : List (Entry OnJoin)) (b : Bool)
      → AreGames os
      → bytes_eq c.id id ≡ false
      → joins c (lobby id sub cs os b)
        ≡ some (lobby id sub (cs ++ c ∷ []) (marked (lasting os)) true)
  unfolding joins on_joined
  joins-others c cs os b g other =
      let w = (lobby id sub cs os b).wait in
      rw
        (
          call-AreQuiet (clears c w) (os ++ ours id sub b ∷ [])
              (quiet c w (os ++ ours id sub b ∷ []) os b g other),
          marked-lasting os b,
          other,
        )
        refl

  hits-ours :
      (os : List (Entry OnJoin)) (b : Bool) → hits (sub ∷ []) (os ++ ours id sub b ∷ []) ≡ true
  hits-ours [] b = ground (arith, bytes_eq_iff sub sub)
  hits-ours (o ∷ os) b = ground (arith, hits-ours os b)

  joins_back :
      (c : SimpleClient) (cs : List SimpleClient) (os : List (Entry OnJoin)) (b : Bool)
      → bytes_eq c.id id ≡ true
      → joins c (lobby id sub cs os b) ≡ none
  unfolding joins clears
  joins_back c cs os b back =
      rw
        (call_stops (clears c (lobby id sub cs os b).wait) os [] (ours id sub b) refl
          (rw back (hits-ours os b)))
        refl

  -- Nothing ends the wait: others join, clients leave, and no remove_client finds the room empty
  -- when its on_leave has returned.
  abbrev pub IsCalm : List Event → List SimpleClient → Type 0
  IsCalm [] cs = Unit
  IsCalm (joined c ∷ es) cs = (bytes_eq c.id id ≡ false) × IsCalm es (cs ++ c ∷ [])
  IsCalm (left session_id ∷ es) cs = IsCalm es (without session_id cs)
  IsCalm (returned ∷ es) cs = (is_empty cs ≡ false) × IsCalm es cs
  IsCalm (elapsed ∷ es) cs = ⊥

  -- the clients in the room after what happened
  abbrev pub present : List Event → List SimpleClient → List SimpleClient
  present [] cs = cs
  present (joined c ∷ es) cs = present es (cs ++ c ∷ [])
  present (left session_id ∷ es) cs = present es (without session_id cs)
  present (returned ∷ es) cs = present es cs
  present (elapsed ∷ es) cs = present es cs

  happen-calm :
      (before after : List Event) (cs : List SimpleClient) (os : List (Entry OnJoin)) (b : Bool)
      → AreGames os
      → IsCalm before cs
      → (os' : List (Entry OnJoin)) × (b' : Bool) × AreGames os'
        × (happen (before ++ after) (lobby id sub cs os b)
            ≡ happen after (lobby id sub (present before cs) os' b'))
  unfolding happen leaves
  happen-calm [] after cs os b g calm = (os, b, g, refl)
  happen-calm (joined c ∷ before) after cs os b g calm = rw (joins-others c cs os b g calm.0) (
      happen-calm before after (cs ++ c ∷ []) (marked (lasting os)) true (AreGames-lasting os g)
        calm.1)
  happen-calm (left session_id ∷ before) after cs os b g calm =
      happen-calm before after (without session_id cs) os b g calm
  happen-calm (returned ∷ before) after cs os b g calm =
      rw (on_leave_returns, calm.0) (happen-calm before after cs os b g calm.1)
  happen-calm (elapsed ∷ before) after cs os b g calm = absurd calm

  remove-ours :
      (os : List (Entry OnJoin)) (b : Bool)
      → AreGames os
      → AreGames (remove sub (os ++ ours id sub b ∷ []))
  unfolding remove
  remove-ours [] b g = ground (arith, bytes_eq_iff sub sub)
  remove-ours (o ∷ os) b g = ground (arith, remove-ours os b g.1)

  -- The answer of the timer, and that no listener of the wait is left.
  abbrev pub Answers : Bool → Lobby → Type 0
  Answers b l = (l.wait.promise ≡ some b) × AreGames l.on_join_listeners

  elapses-Answers :
      (cs : List SimpleClient) (os : List (Entry OnJoin)) (b : Bool)
      → AreGames os
      → Answers (any (is_client id) cs) (elapses (lobby id sub cs os b))
  unfolding elapses fires resolve
  elapses-Answers cs os b g = (refl, remove-ours os b g)

  timer-Answers :
      (cs : List SimpleClient) (os : List (Entry OnJoin)) (before : List Event)
      → AreGames os
      → IsCalm before cs
      → (l : Lobby) × (happen (before ++ elapsed ∷ []) (lobby id sub cs os false) ≡ some l)
        × Answers (any (is_client id) (present before cs)) l
  unfolding happen
  timer-Answers cs os before games calm =
      let (os', b', games', e) = happen-calm before (elapsed ∷ []) cs os false games calm in
      (elapses (lobby id sub (present before cs) os' b'), e, elapses-Answers _ os' b' games')

  back_stops :
      (cs : List SimpleClient) (os : List (Entry OnJoin)) (before after : List Event)
      → AreGames os
      → IsCalm before cs
      → (c : SimpleClient) → bytes_eq c.id id ≡ true
      → happen (before ++ joined c ∷ after) (lobby id sub cs os false) ≡ none
  unfolding happen
  back_stops cs os before after games calm c back =
      let (os', b', games', e) = happen-calm before (joined c ∷ after) cs os false games calm in
      e ∙ rw (joins_back c (present before cs) os' b' back) refl

  emptied_stops :
      (cs : List SimpleClient) (os : List (Entry OnJoin)) (before after : List Event)
      → AreGames os
      → IsCalm before cs
      → is_empty (present before cs) ≡ true
      → happen (before ++ returned ∷ after) (lobby id sub cs os false) ≡ none
  unfolding happen
  emptied_stops cs os before after games calm last =
      let (os', b', games', e) = happen-calm before (returned ∷ after) cs os false games calm in
      e ∙ rw (on_leave_returns, last) refl

-- How a wait for a client ends, in a room that is not being disposed and whose own listeners are
-- the game's, after others have joined and clients have left, as long as no `remove_client` finds
-- the room empty behind its `on_leave`. When the timer fires, the answer is whether a client with the
-- id is in the room then, and the wait listens no more. When a client with the id joins before, or a
-- `remove_client` does find the room empty behind its `on_leave` and has disposed it, what follows
-- has no defined outcome: the listener takes itself out of the list that is being called, or the
-- room that the wait reads is destroyed.
pub allow_reconnection-answer :
    (client : SimpleClient) (sub : Bytes) (cs : List SimpleClient)
    (game_listeners : List (Entry OnJoin)) (before after : List Event) (l₀ : Lobby)
    → AreGames game_listeners
    → IsCalm client.id sub before cs
    → allow_reconnection false client sub cs game_listeners ≡ some l₀
    → ((l : Lobby) × (happen (before ++ elapsed ∷ []) l₀ ≡ some l)
        × Answers client.id sub (any (is_client client.id) (present client.id sub before cs)) l)
      × ((c : SimpleClient)
          → bytes_eq c.id client.id ≡ true
          → happen (before ++ joined c ∷ after) l₀ ≡ none)
      × (is_empty (present client.id sub before cs) ≡ true
          → happen (before ++ returned ∷ after) l₀ ≡ none)
unfolding allow_reconnection add
allow_reconnection-answer client sub cs game_listeners before after l₀ games calm begun =
    rw (sym same) (
      timer-Answers client.id sub cs game_listeners before games calm,
      back_stops client.id sub cs game_listeners before after games calm,
      emptied_stops client.id sub cs game_listeners before after games calm,
    )
  where
    same : lobby client.id sub cs game_listeners false ≡ l₀
    same = cc
