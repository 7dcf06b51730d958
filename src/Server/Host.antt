-- ===== src/Server/Host.antt =====
-- Listening, accepting and shutting down: server/src/server.cpp. The kernel's answers are arguments.
-- A connection's thread, once started, is that of Server/Connection. What the accept thread and the
-- others do while `shutdown` joins the accept thread is an argument, which need not end.
pub mod Stopping
pub mod Starting
use blueboat_cpp.Room.Lifecycle.{dispose}
use blueboat_cpp.Json.{Json}
use blueboat_cpp.Run.{Run, done, modify, hook, with_state, ◌>>◌}
use blueboat_cpp.Http.Text.{to_string}
use blueboat_cpp.Base.{
  ℕ, suc, Bool, true, not, ◌&&◌, Option, none, some, List, [], ◌∷◌, ◌++◌, map, if◌then◌else◌, Bytes,
  codes, Result, Exec, ok, throws,
}
use blueboat_cpp.Server.State.{Server, in_room, levels}
use blueboat_cpp.Room.State.{Hooks}

pub record Host (V : Type 0) : Type 0 where
  pub server : Server V
  -- tls_ctx_ is set
  pub tls : Bool
  -- `none` is -1
  pub listen_fd : Option ℕ
  pub shutting_down : Bool
  -- the sockets whose connections run on a thread of their own
  pub started : List ℕ
  -- the listening sockets that were shut and closed
  pub shut_fds : List ℕ
  -- the sessions whose connections were told to close
  pub told : List Bytes
  -- how often those that wait in run_forever were woken
  pub woken : ℕ

-- A round of the accept loop: no connection, a socket and whether its TLS handshake succeeds, or
-- another thread that sets the flag first.
pub data Accept : Type 0 where
  failed : Accept
  socket : ℕ → Bool → Accept
  stops : Accept

module _ {V : Type 0} where
  -- `fd` is what tcp::listen_on gives, `none` where it is negative.
  unfoldable pub listen : Option ℕ → ℕ → Host V → Result (Unit {0}) × Host V
  unfolding to_string
  listen none port h = (
    throws (codes "blueboat: failed to bind port " ++ to_string port),
    record h { listen_fd = none },
  )
  listen (some fd) port h = (ok tt, record h { listen_fd = some fd })

  abbrev accept_one : Accept → Host V → Host V
  accept_one failed h = h
  accept_one (socket fd secured) h =
      if h.tls && not secured then h else record h { started = h.started ++ fd ∷ [] }
  accept_one stops h = record h { shutting_down = true }

  -- The loop, for as long as rounds are given.
  unfoldable pub accept_loop : List Accept → Host V → Host V
  accept_loop [] h = h
  accept_loop (a ∷ rest) h = if h.shutting_down then h else accept_loop rest (accept_one a h)

  abbrev stop_listening : Host V → Host V
  stop_listening h = elim h.listen_fd [
    | none ↦ h
    | some fd ↦ record h { shut_fds = h.shut_fds ++ fd ∷ []; listen_fd = none }
  ]

  abbrev pub tell_all : Host V → Host V
  tell_all h = record h { told = h.told ++ map (λ c. c.0) h.server.connections }

  abbrev pub wake : Host V → Host V
  wake h = record h { woken = suc h.woken }

  abbrev pub begin_stop : Host V → Host V
  begin_stop h = stop_listening (record h { shutting_down = true })

  abbrev pub with_server :
      Host V → Option (Result (Unit {0}) × Server V) → Option (Result (Unit {0}) × Host V)
  with_server h none = none
  with_server h (some (r, s)) = some (r, record h { server = s })

  -- accept_thread_.join(): the server and the sockets that were started when the thread has ended,
  -- unless it never does.
  abbrev pub joined : Host V → Option (Server V × List ℕ) → Option (Result (Unit {0}) × Host V)
  joined h none = none
  joined h (some (s, fds)) = some (ok tt, record h { server = s; started = fds })

  abbrev pub join : (Host V → Option (Server V × List ℕ)) → Run (Host V) (Unit {0})
  join accept_thread h = joined h (accept_thread h)

  abbrev pub on_server : Run (Server V) (Unit {0}) → Run (Host V) (Unit {0})
  on_server m h = with_server h (m h.server)

module _ (json : Json) (hooks : Bytes → Hooks json.Value) where
  open json use {Value}

  -- The rooms that are still managed when their turn comes.
  unfoldable pub dispose_rooms : List Bytes → Run (Server Value) (Unit {0})
  unfolding in_room dispose
  dispose_rooms [] = done
  dispose_rooms (id ∷ ids) =
      in_room id (λ room. dispose json (hooks room.room_type) levels) >> dispose_rooms ids

  -- `on_dispose` is the application's.
  unfoldable pub shutdown :
      (Host Value → Option (Server Value × List ℕ))
      → Exec (Server Value) (Unit {0})
      → Run (Host Value) (Unit {0})
  unfolding dispose_rooms
  shutdown accept_thread on_dispose = do
    modify begin_stop
    join accept_thread
    modify tell_all
    on_server (with_state (λ s. dispose_rooms (map (λ r. r.0) s.rooms)))
    on_server (hook on_dispose)
    modify wake

  -- Server::~Server
  unfoldable pub destroy :
      (Host Value → Option (Server Value × List ℕ))
      → Exec (Server Value) (Unit {0})
      → Run (Host Value) (Unit {0})
  unfolding shutdown
  destroy accept_thread on_dispose =
      with_state (λ h. if h.shutting_down then done else shutdown accept_thread on_dispose)
