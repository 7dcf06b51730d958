-- ===== src/Server/Connection/Served.antt =====
-- The server's handlers on the receive loop of a web socket connection.
use blueboat_cpp.Server.Requests.{Draws, handle_client_disconnect, handle_ws_payload}
use blueboat_cpp.Snapshot.{SimpleClient}
use blueboat_cpp.Sio.{Msgpack}
use blueboat_cpp.Json.{Json}
use blueboat_cpp.Socket.{Socket}
use blueboat_cpp.WsConnection.Serving
use blueboat_cpp.WsConnection.Delivery.{IsReady, whole}
use blueboat_cpp.WsConnection.{Wslay, dispatched, run_recv_loop, Handlers, State, buffer_size}
use blueboat_cpp.WsConnection.Receiving.{WslayLaws}
use blueboat_cpp.Server.Connection.{Session, Event, message, receive, on_server}
use blueboat_cpp.Run.{Run, after, ◌>>◌}
use blueboat_cpp.Room.State.{Hooks}
use blueboat_cpp.Base.{
  ℕ, suc, ◌≤◌, ◌≡◌, refl, ap, ◌∙◌, Bool, Option, none, some, List, [], ◌∷◌, Bytes, length, All,
  Result, ok, throws,
}

-- A session, and the number of its messages so far: each has a clock and draws of its own.
pub record Counted (S : Type 0) : Type 0 where
  pub count : ℕ
  pub state : S

module _ {S : Type 0} where
  abbrev pub counted : ℕ → Option (Result (Unit {0}) × S) → Option (Result (Unit {0}) × Counted S)
  counted n none = none
  counted n (some (r, s)) = some (r, record { count = n; state = s })

  -- The sessions alone.
  abbrev pub sessions : Option (Result (Unit {0}) × Counted S) → Option (Result (Unit {0}) × S)
  sessions none = none
  sessions (some (r, t)) = some (r, t.state)

  sessions-after :
      (n : ℕ) (o : Option (Result (Unit {0}) × S)) (g : Run S (Unit {0}))
      (h : Run (Counted S) (Unit {0}))
      → ((s : S) → sessions (h (record { count = n; state = s })) ≡ g s)
      → sessions (after (counted n o) (λ _. h)) ≡ after o (λ _. g)
  sessions-after n none g h e = refl
  sessions-after n (some (ok u, s)) g h e = e s
  sessions-after n (some (throws w, s)) g h e = refl

  sessions-counted : (n : ℕ) (o : Option (Result (Unit {0}) × S)) → sessions (counted n o) ≡ o
  sessions-counted n none = refl
  sessions-counted n (some (r, s)) = refl

  after-after :
      (o : Option (Result (Unit {0}) × S)) (g h : Run S (Unit {0}))
      → after o (λ _ s. after (g s) (λ _. h)) ≡ after (after o (λ _. g)) (λ _. h)
  after-after none g h = refl
  after-after (some (ok u, s)) g h = refl
  after-after (some (throws e, s)) g h = refl

module _ (json : Json) (hooks : Bytes → Hooks json.Value) (msgpack : Msgpack json.Value)
    (client : SimpleClient) (clock : ℕ → ℕ) (draws : ℕ → Draws json hooks) where
  open json use {Value}

  -- ws.set_message_handler, in handle_connection
  abbrev pub on_message : Bool → Bytes → Run (Counted (Session Value)) (Unit {0})
  on_message is_binary payload t = counted (suc t.count) (
      on_server
        (handle_ws_payload json hooks msgpack (clock t.count) (draws t.count) client is_binary
          payload)
        t.state)

  -- ws.set_close_handler
  abbrev pub on_close : Run (Counted (Session Value)) (Unit {0})
  on_close t =
      counted t.count (on_server (handle_client_disconnect json hooks client.session_id) t.state)

  -- The events of these messages, from the n-th on.
  abbrev pub events : ℕ → List (Bool × Bytes) → List (Event json hooks msgpack)
  events n [] = []
  events n ((is_binary, payload) ∷ ms) =
      message (clock n) (draws n) is_binary payload ∷ events (suc n) ms

  serve-receive :
      (ms : List (Bool × Bytes)) (n : ℕ) (s : Session Value)
      → sessions (Serving.serve on_message ms on_close (record { count = n; state = s }))
        ≡ (receive json hooks msgpack client (events n ms)
              >> on_server (handle_client_disconnect json hooks client.session_id))
            s
  unfolding receive
  serve-receive [] n s = sessions-counted n _
  serve-receive ((b, p) ∷ ms) n s =
      let o = on_server (handle_ws_payload json hooks msgpack (clock n) (draws n) client b p) s in
      let ends = on_server (handle_client_disconnect json hooks client.session_id) in
      sessions-after (suc n) o (receive json hooks msgpack client (events (suc n) ms) >> ends)
        (Serving.serve on_message ms on_close) (serve-receive ms (suc n))
      ∙ after-after o (receive json hooks msgpack client (events (suc n) ms)) ends

  module _ (wslay : Wslay) (laws : WslayLaws wslay) (socket : Socket)
      (idles : Option (Run (State wslay socket (Counted (Session Value))) (Unit {0}))) where
    open laws use {Reading, feed}

    abbrev pub handlers : Handlers (State wslay socket (Counted (Session Value)))
    handlers = Serving.serving on_message wslay laws socket on_close idles

    -- With wslay as documented: when what arrives, in whatever pieces that fit the buffer, is
    -- without error, the receive loop with the server's handlers does to the server just what
    -- handling the text and binary messages of the whole input, in order, and then the end of the
    -- connection does, whatever clock and draws each message meets, and exceptions included.
    pub run_recv_loop-receive :
        (pieces : List Bytes) (t : State wslay socket (Counted (Session Value))) (r r' : Reading)
        (ms : List (ℕ × Bytes))
        → IsReady wslay laws socket t.connection r
        → All (λ b. length b ≤ buffer_size) pieces
        → feed (whole wslay laws socket pieces) r ≡ some (ms, r')
        → sessions (
            Serving.users on_message wslay laws socket on_close idles (
              run_recv_loop wslay socket
                (Counted (Session Value))
                handlers
                (Serving.arrivals on_message wslay laws socket on_close idles pieces)
                t))
          ≡ (receive json hooks msgpack client (events t.user.count (dispatched ms))
                >> on_server (handle_client_disconnect json hooks client.session_id))
              t.user.state
    run_recv_loop-receive pieces t r r' ms ready fits fed =
        ap sessions (
          Serving.run_recv_loop-serve on_message wslay laws socket on_close idles pieces t r r' ms
            ready fits fed)
        ∙ serve-receive (dispatched ms) t.user.count t.user.state
