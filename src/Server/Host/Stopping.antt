-- ===== src/Server/Host/Stopping.antt =====
-- A server that is shut down.
use blueboat_cpp.Run.Ends.{Ends}
use blueboat_cpp.Server.Host.{Host}
use blueboat_cpp.Room.Ending.{KeepDisposing}
use blueboat_cpp.Json.{Json}
use blueboat_cpp.Base.{suc, ◌≡◌, true, Option, none, some, ◌++◌, map, Bytes, Result, ok, throws}
use blueboat_cpp.Server.State.{Server}
use blueboat_cpp.Room.State.{Hooks}

module _ (json : Json) (hooks : Bytes → Hooks json.Value)
    (keep : (room_type : Bytes) → KeepDisposing json (hooks room_type)) where
  open json use {Value}

  -- It returned, with everything told to stop, or it threw.
  abbrev pub Stopped : Host Value → Option (Result (Unit {0}) × Host Value) → Type 0
  Stopped h none = ⊥
  Stopped h (some (throws e, h')) = h'.shutting_down ≡ true
  Stopped h (some (ok u, h')) =
      (h'.shutting_down ≡ true)
      × (h'.listen_fd ≡ none)
      × (h'.told ≡ h.told ++ map (λ c. c.0) h.server.connections)
      × (h'.woken ≡ suc h.woken)
