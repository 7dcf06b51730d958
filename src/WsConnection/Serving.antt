-- ===== src/WsConnection/Serving.antt =====
-- The receive loop with handlers that work on what their connection serves, not on the connection.
use blueboat_cpp.WsConnection.Receiving.{WslayLaws, then_feed-Parts, fed_same}
use blueboat_cpp.WsConnection.{
  Wslay, dispatched, close, buffer_size, Arrival, chunk, Handlers, State, set_closed, pass_on,
  run_recv_loop,
}
use blueboat_cpp.Socket.{Socket}
use blueboat_cpp.WsConnection.Delivery.{IsReady, take_in-Takes, dispatched-append, whole}
use blueboat_cpp.Run.{Run, done, after}
use blueboat_cpp.Base.{
  ℕ, ◌≤◌, ◌≡◌, refl, sym, ap, ◌∙◌, Bool, Option, none, some, List, [], ◌∷◌, ◌++◌, Bytes, length,
  All, Result, ok, throws,
}

module _ {A : Type 0} (f : Bool → Bytes → Run A (Unit {0})) where
  -- Messages handed to a handler, one after another, and then something else: no connection.
  abbrev pub serve : List (Bool × Bytes) → Run A (Unit {0}) → Run A (Unit {0})
  serve [] close a = close a
  serve ((is_binary, message) ∷ ms) close a = after (f is_binary message a) (λ _. serve ms close)

  after-after :
      (o : Option (Result (Unit {0}) × A)) (g h : Run A (Unit {0}))
      → after (after o (λ _. g)) (λ _. h) ≡ after o (λ _ a. after (g a) (λ _. h))
  after-after none g h = refl
  after-after (some (ok u, a)) g h = refl
  after-after (some (throws e, a)) g h = refl

  after-same :
      (o : Option (Result (Unit {0}) × A)) (g h : Run A (Unit {0}))
      → ((a : A) → g a ≡ h a)
      → after o (λ _. g) ≡ after o (λ _. h)
  after-same none g h e = refl
  after-same (some (ok u, a)) g h e = e a
  after-same (some (throws w, a)) g h e = refl

  serve-append :
      (ms ns : List (Bool × Bytes)) (close : Run A (Unit {0})) (a : A)
      → serve (ms ++ ns) close a ≡ after (serve ms done a) (λ _. serve ns close)
  serve-append [] ns close a = refl
  serve-append ((b, m) ∷ ms) ns close a =
      after-same (f b m a) (serve (ms ++ ns) close)
        (λ q. after (serve ms done q) (λ _. serve ns close)) (serve-append ms ns close)
      ∙ sym (after-after (f b m a) (serve ms done) (serve ns close))

  module _ (wslay : Wslay) (laws : WslayLaws wslay) (socket : Socket) (close : Run A (Unit {0}))
      (idles : Option (Run (State wslay socket A) (Unit {0}))) where
    open laws use {Reading, feed}

    abbrev pub Serving : Type 0
    Serving = State wslay socket A

    abbrev pub with_user :
        Serving → Option (Result (Unit {0}) × A) → Option (Result (Unit {0}) × Serving)
    with_user t none = none
    with_user t (some (r, a)) = some (r, record t { user = a })

    abbrev pub on_user : Run A (Unit {0}) → Run Serving (Unit {0})
    on_user m t = with_user t (m t.user)

    abbrev pub users : Option (Result (Unit {0}) × Serving) → Option (Result (Unit {0}) × A)
    users none = none
    users (some (r, t)) = some (r, t.user)

    abbrev pub serving : Handlers Serving
    serving = record {
      on_message = λ is_binary message. on_user (f is_binary message);
      on_close = on_user close;
      on_idle = idles;
    }

    abbrev pub arrivals : List Bytes → List (Arrival Serving)
    arrivals [] = []
    arrivals (b ∷ bs) = chunk b ∷ arrivals bs

    after-with_user :
        (t : Serving) (o : Option (Result (Unit {0}) × A)) (g : Run A (Unit {0}))
        (h : Run Serving (Unit {0}))
        → ((a : A) → h (record t { user = a }) ≡ with_user t (g a))
        → after (with_user t o) (λ _. h) ≡ with_user t (after o (λ _. g))
    after-with_user t none g h e = refl
    after-with_user t (some (ok u, a)) g h e = e a
    after-with_user t (some (throws w, a)) g h e = refl

    pass_on-serve :
        (ms : List (Bool × Bytes)) (t : Serving)
        → pass_on wslay socket A serving ms t ≡ with_user t (serve ms done t.user)
    unfolding pass_on
    pass_on-serve [] t = refl
    pass_on-serve ((b, m) ∷ ms) t =
        after-with_user t (f b m t.user) (serve ms done) (pass_on wslay socket A serving ms)
          (λ a. pass_on-serve ms (record t { user = a }))

    users-after :
        (t : Serving) (o : Option (Result (Unit {0}) × A)) (g : Run A (Unit {0}))
        (h : Run Serving (Unit {0}))
        → ((a : A) → users (h (record t { user = a })) ≡ g a)
        → users (after (with_user t o) (λ _. h)) ≡ after o (λ _. g)
    users-after t none g h e = refl
    users-after t (some (ok u, a)) g h e = e a
    users-after t (some (throws w, a)) g h e = refl

    users-with_user : (t : Serving) (o : Option (Result (Unit {0}) × A)) → users (with_user t o) ≡ o
    users-with_user t none = refl
    users-with_user t (some (r, a)) = refl

    -- With wslay as documented, and handlers that work on what the connection serves and not on the
    -- connection: when what arrives, in whatever pieces that fit the buffer, is without error, the
    -- loop does to it just what handing over the text and binary messages of the whole input one
    -- after another does, and then the close handler, exceptions included: the first one stops both.
    pub run_recv_loop-serve :
        (pieces : List Bytes) (t : Serving) (r r' : Reading) (ms : List (ℕ × Bytes))
        → IsReady wslay laws socket t.connection r
        → All (λ b. length b ≤ buffer_size) pieces
        → feed (whole wslay laws socket pieces) r ≡ some (ms, r')
        → users (run_recv_loop wslay socket A serving (arrivals pieces) t)
          ≡ serve (dispatched ms) close t.user
    unfolding run_recv_loop dispatched
    run_recv_loop-serve [] t r r' ms ready fits fed =
        let same = fed_same ms [] r' r (feed [] r) fed (laws.feed-nil r) in
        users-with_user (set_closed wslay socket A t) (close t.user)
        ∙ ap (λ l. serve (dispatched l) close t.user) (sym same.0)
    run_recv_loop-serve (b ∷ bs) t r r' ms ready fits fed =
        let parts =
          then_feed-Parts feed (whole wslay laws socket bs) (feed b r) ms r'
            (sym (laws.feed-append b (whole wslay laws socket bs) r) ∙ fed) in
        let now =
          take_in-Takes wslay laws socket b t.connection r parts.r₁ parts.ms₁ ready fits.0
            parts.first in
        let t' : Serving = record { connection = now.next; user = t.user } in
        rw (now.taken_in, pass_on-serve (dispatched parts.ms₁) t')
          (users-after t' (serve (dispatched parts.ms₁) done t.user)
              (serve (dispatched parts.ms₂) close)
              (run_recv_loop wslay socket A serving (arrivals bs))
              (λ a.
                run_recv_loop-serve bs (record t' { user = a }) parts.r₁ r' parts.ms₂ now.ready
                  fits.1 parts.second)
            ∙ sym (serve-append (dispatched parts.ms₁) (dispatched parts.ms₂) close t.user)
            ∙ ap (λ l. serve l close t.user)
                (sym (dispatched-append wslay laws socket parts.ms₁ parts.ms₂)
                  ∙ ap dispatched parts.together))
