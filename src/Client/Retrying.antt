-- ===== src/Client/Retrying.antt =====
-- The rounds of the manager thread's loop until a connection stands: client/src/client.cpp.
use blueboat_cpp.Run.{Run, ◌>>=◌, done, after}
use blueboat_cpp.Client.Connection.{
  connection_manager_loop, round, retry, Outcome, Incoming, unreachable, unsent, answered,
  is_upgrade, read_response_headers, failure, connection, if_goes_on,
}
use blueboat_cpp.Socket.{Socket}
use blueboat_cpp.Sio.{Msgpack}
use blueboat_cpp.Json.{Json}
use blueboat_cpp.Base.{
  ℕ, suc, ◌+◌, ◌≡◌, refl, ap, ◌∙◌, true, false, Option, some, List, [], ◌∷◌, ◌++◌, arith,
  if◌then◌else◌, Bytes, length, All, ok,
}
use blueboat_cpp.Client.State.{Client, Listeners}

module _ (json : Json) (msgpack : Msgpack json.Value) (listeners : Listeners json.Value)
    (socket : Socket) (host : Bytes) (port : ℕ) where
  open json use {Value}

  -- The listeners of failures return and leave the client as it is.
  pub record AreCalm : Type 0 where
    pub connect_error : (v : Value) (c : Client Value) → listeners.on_connect_error v c ≡ (ok tt, c)
    pub attempt : (n : ℕ) (c : Client Value) → listeners.on_reconnect_attempt n c ≡ (ok tt, c)

  -- No connection comes of it.
  abbrev pub Fails : Outcome socket.State Value → Type 0
  Fails unreachable = Unit
  Fails unsent = Unit
  Fails (answered s now es) = is_upgrade (read_response_headers socket s) ≡ false

  -- The loop, cut at the round after the next.
  abbrev pub go_on : List (Outcome socket.State Value) → Option ℕ → Run (Client Value) (Unit {0})
  go_on os =
      if_goes_on json msgpack listeners socket host port
        (λ n. connection_manager_loop json msgpack listeners socket host port n os)

  module _ (calm : AreCalm) where
    retry-again :
        (n : ℕ) (what : Bytes) (c : Client Value)
        → retry json msgpack listeners socket host port n what c ≡ some (ok (some (suc n)), c)
    retry-again n what c =
        rw
          (
            calm.connect_error (failure json msgpack listeners socket host port what) c,
            calm.attempt (suc n) c,
          )
          refl

    round-again :
        (n : ℕ) (o : Outcome socket.State Value) (c : Client Value)
        → Fails o
        → round json msgpack listeners socket host port n o c ≡ some (ok (some (suc n)), c)
    unfolding round
    round-again n unreachable c f = retry-again n _ c
    round-again n unsent c f = retry-again n _ c
    round-again n (answered s now es) c f = rw f (retry-again n _ c)

    loop-running :
        (n : ℕ) (o : Outcome socket.State Value) (os : List (Outcome socket.State Value))
        (c : Client Value)
        → c.running ≡ true
        → connection_manager_loop json msgpack listeners socket host port n (o ∷ os) c
          ≡ after (round json msgpack listeners socket host port n o c) (go_on os)
    unfolding connection_manager_loop
    loop-running n o os c on =
        ap
          (λ b.
            (if b then round json msgpack listeners socket host port n o >>= go_on os else done) c)
          on

    after_failures :
        (os rest : List (Outcome socket.State Value)) (n : ℕ) (c : Client Value)
        → c.running ≡ true
        → All Fails os
        → connection_manager_loop json msgpack listeners socket host port n (os ++ rest) c
          ≡ connection_manager_loop json msgpack listeners socket host port (n + length os) rest c
    unfolding connection_manager_loop
    after_failures [] rest n c on f =
        ap (λ k. connection_manager_loop json msgpack listeners socket host port k rest c)
          (omega arith)
    after_failures (o ∷ os) rest n c on f =
        loop-running n o (os ++ rest) c on
        ∙ ap (λ r. after r (go_on (os ++ rest))) (round-again n o c f.0)
        ∙ after_failures os rest (suc n) c on f.1
        ∙ ap (λ k. connection_manager_loop json msgpack listeners socket host port k rest c)
            (omega arith)

    -- With listeners of failures that leave the client as it is: a running client tries again after
    -- every attempt that fails, however it fails, and as soon as one is answered by the upgrade it
    -- has the connection, with the number of failures for the reconnection's, and loops on
    -- afterwards.
    pub connection_manager_loop-answered :
        (os rest : List (Outcome socket.State Value)) (s : socket.State) (now : ℕ)
        (es : List (Incoming Value)) (n : ℕ) (c : Client Value)
        → c.running ≡ true
        → All Fails os
        → is_upgrade (read_response_headers socket s) ≡ true
        → connection_manager_loop json msgpack listeners socket host port n
            (os ++ answered s now es ∷ rest)
            c
          ≡ (connection json msgpack listeners socket host port (n + length os) now es
                >>= go_on rest)
              c
    unfolding round
    connection_manager_loop-answered os rest s now es n c on f up =
        after_failures os (answered s now es ∷ rest) n c on f
        ∙ loop-running (n + length os) (answered s now es) rest c on
        ∙ rw up refl
