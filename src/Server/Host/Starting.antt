-- ===== src/Server/Host/Starting.antt =====
-- Making a server, and the socket of a connection that was accepted, in server/src/server.cpp, with
-- OpenSSL as a parameter.
use blueboat_cpp.PubSub.{Listener}
use blueboat_cpp.Tls.{OpenSsl, create_server}
use blueboat_cpp.Storage.{Storage}
use blueboat_cpp.Room.State.{Handler}
use blueboat_cpp.Server.Host.{Host}
use blueboat_cpp.Tls
use blueboat_cpp.Base.{
  ℕ, ◌≡◌, refl, ap, ◌∙◌, Bool, true, false, Option, none, some, List, [], ◌∷◌, Bytes, Assoc, Result,
  ok, throws,
}

pub record TlsOptions : Type 0 where
  pub cert_file : Bytes
  pub key_file : Bytes

-- The store and the channels; the admins and the generator of ids are arguments of what uses them.
pub record ServerOptions : Type 0 where
  pub storage : Storage
  pub channels : Assoc (List (Listener Handler))
  pub tls : Option TlsOptions

abbrev pub idle_host : {V : Type 0} → Bool → ServerOptions → Host V
idle_host tls options = record {
  server = record {
    registered = [];
    rooms = [];
    connections = [];
    last_activity = [];
    storage = options.storage;
    channels = options.channels;
    scheduler = record { tasks = []; cancelled = λ h. false; next_handle = 0 };
    now = 0;
    sent = [];
    pongs = [];
    replies = [];
  };
  tls = tls;
  listen_fd = none;
  shutting_down = false;
  started = [];
  shut_fds = [];
  told = [];
  woken = 0;
}

module _ (ssl : OpenSsl) where
  open ssl use {State}

  abbrev with_context :
      {V : Type 0}
      → ServerOptions
      → Result ℕ × Tls.Library ssl
      → Result (Host V × Option ℕ) × Tls.Library ssl
  with_context options (throws e, w) = (throws e, w)
  with_context options (ok ctx, w) = (ok (idle_host true options, some ctx), w)

  abbrev construct_with :
      {V : Type 0}
      → ServerOptions
      → Option TlsOptions
      → Tls.Library ssl
      → Result (Host V × Option ℕ) × Tls.Library ssl
  construct_with options none w = (ok (idle_host false options, none), w)
  construct_with options (some tls) w =
      with_context options (create_server ssl tls.cert_file tls.key_file w)

  -- Server::Server: the server, and tls_ctx_.
  unfoldable pub construct :
      {V : Type 0} → ServerOptions → Tls.Library ssl → Result (Host V × Option ℕ) × Tls.Library ssl
  unfolding create_server
  construct options w = construct_with options options.tls w

  -- Where the handshake fails, the TLS socket is destroyed.
  abbrev pub if_accepted : ℕ → ℕ → Bool × State → Option (Option ℕ) × State
  if_accepted fd p (true, s) = (some (some p), s)
  if_accepted fd p (false, s) = (none, Tls.destroy ssl (some p) (some fd) s)

  abbrev pub on_session : ℕ → Option (ℕ × State) → Option (Option (Option ℕ) × State)
  on_session fd none = none
  on_session fd (some (p, s)) = some (if_accepted fd p (Tls.accept_server ssl p s))

  -- A round of the accept loop behind `accept`: the session of the connection's socket, none for a
  -- plain one; or no socket. No outcome where OpenSSL gives no session.
  unfoldable pub secure : Option ℕ → ℕ → State → Option (Option (Option ℕ) × State)
  unfolding Tls.construct Tls.accept_server Tls.destroy
  secure none fd s = some (some none, s)
  secure (some ctx) fd s = on_session fd (Tls.construct ssl fd ctx s)

  -- What OpenSSL is documented to do to the sessions that are alive, the newest first, and closing
  -- to the descriptors that were closed.
  pub record SessionLife : Type 0 where
    pub sessions : State → List ℕ
    pub closed : State → List ℕ
    pub ssl_new-sessions :
        (ctx p : ℕ) (s s' : State)
        → ssl.ssl_new ctx s ≡ (some p, s')
        → (sessions s' ≡ p ∷ sessions s) × (closed s' ≡ closed s)
    pub set_fd-sessions :
        (p fd : ℕ) (s : State)
        → (sessions (ssl.set_fd p fd s) ≡ sessions s) × (closed (ssl.set_fd p fd s) ≡ closed s)
    pub accept-sessions :
        (p : ℕ) (s : State)
        → (sessions (ssl.ssl_accept p s).1 ≡ sessions s)
          × (closed (ssl.ssl_accept p s).1 ≡ closed s)
    pub shutdown-sessions :
        (p : ℕ) (s : State)
        → (sessions (ssl.ssl_shutdown p s) ≡ sessions s)
          × (closed (ssl.ssl_shutdown p s) ≡ closed s)
    pub free-sessions :
        (p : ℕ) (ps : List ℕ) (s : State)
        → sessions s ≡ p ∷ ps
        → (sessions (ssl.ssl_free p s) ≡ ps) × (closed (ssl.ssl_free p s) ≡ closed s)
    pub close-sessions :
        (fd : ℕ) (s : State)
        → (sessions (ssl.close fd s) ≡ sessions s) × (closed (ssl.close fd s) ≡ fd ∷ closed s)

  module _ (life : SessionLife) where
    open life use {sessions, closed}

    -- What a connection comes to by its handshake: the socket has the session, which is the one more
    -- that is alive, and nothing was closed; or there is no socket, no more sessions are alive than
    -- before, and the descriptor is closed.
    abbrev pub Settles : ℕ → ℕ → State → Bool × State → Option (Option (Option ℕ) × State) → Type 0
    Settles fd p s (true, s₁) o =
        (o ≡ some (some (some p), s₁)) × (sessions s₁ ≡ p ∷ sessions s) × (closed s₁ ≡ closed s)
    Settles fd p s (false, s₁) o =
        (s₂ : State) × (o ≡ some (none, s₂))
        × (sessions s₂ ≡ sessions s)
        × (closed s₂ ≡ fd ∷ closed s)

    if_accepted-Settles :
        (fd p : ℕ) (s : State) (r : Bool × State)
        → sessions r.1 ≡ p ∷ sessions s
        → closed r.1 ≡ closed s
        → Settles fd p s r (some (if_accepted fd p r))
    unfolding Tls.destroy
    if_accepted-Settles fd p s (true, s') e c = (refl, e, c)
    if_accepted-Settles fd p s (false, s') e c =
        let shut = life.shutdown-sessions p s' in
        let free = life.free-sessions p (sessions s) (ssl.ssl_shutdown p s') (shut.0 ∙ e) in
        let closing = life.close-sessions fd (ssl.ssl_free p (ssl.ssl_shutdown p s')) in
        (_, refl, closing.0 ∙ free.0, closing.1 ∙ ap (◌∷◌ fd) (free.1 ∙ shut.1 ∙ c))

    -- With OpenSSL doing to sessions as documented: a server without TLS takes the descriptor of a
    -- connection as it is. A server with TLS, where OpenSSL gives a session for the connection, has a
    -- socket with that session, alive and with its descriptor open, exactly when the handshake
    -- succeeds; when it fails there is no socket, the session is freed and the descriptor closed.
    pub secure-Settles :
        (ctx fd p : ℕ) (s s' : State)
        → ssl.ssl_new ctx s ≡ (some p, s')
        → (secure none fd s ≡ some (some none, s))
          × Settles fd p s (ssl.ssl_accept p (ssl.set_fd p fd s')) (secure (some ctx) fd s)
    unfolding secure Tls.construct Tls.accept_server
    secure-Settles ctx fd p s s' e =
        let made = life.ssl_new-sessions ctx p s s' e in
        let fd_set = life.set_fd-sessions p fd s' in
        let heard = life.accept-sessions p (ssl.set_fd p fd s') in
        (
          refl,
          rw e (
              if_accepted-Settles fd p s (ssl.ssl_accept p (ssl.set_fd p fd s'))
                (heard.0 ∙ fd_set.0 ∙ made.0) (heard.1 ∙ fd_set.1 ∙ made.1)),
        )
