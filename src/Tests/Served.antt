-- ===== src/Tests/Served.antt =====
-- A server that hears three letters, in two pieces, from a client.
use blueboat_cpp.Server.Requests.{handle_client_disconnect}
use blueboat_cpp.Tests.Rooms.{ada}
use blueboat_cpp.Tests.Frames.{codec}
use blueboat_cpp.Tests.Servers.{hooks, managed, draws}
use blueboat_cpp.Tests.Streams.{stream}
use blueboat_cpp.Json.Sample.{Tree, sample}
use blueboat_cpp.Tests.Links.{wire, letters, wire_laws, log}
use blueboat_cpp.WsConnection.Serving
use blueboat_cpp.WsConnection.Delivery
use blueboat_cpp.Server.Connection.Served
use blueboat_cpp.WsConnection.{run_recv_loop, State, dispatched}
use blueboat_cpp.Server.Connection.{Session, receive, on_server}
use blueboat_cpp.Run.{done, ◌>>◌, Run}
use blueboat_cpp.Base.{◌≡◌, refl, Bool, false, some, [], ◌∷◌, arith, Bytes, codes}

abbrev held : State wire stream (Served.Counted (Session Tree))
held = record {
  connection = log.connection;
  user = record {
    count = 0;
    state = record { server = managed; link = record { given = []; closes = 0 } };
  };
}

abbrev handler : Bool → Bytes → Run (Served.Counted (Session Tree)) (Unit {0})
handler = Served.on_message sample hooks codec ada (λ n. n) (λ n. draws)

abbrev closing : Run (Served.Counted (Session Tree)) (Unit {0})
closing = Served.on_close sample hooks codec ada (λ n. n) (λ n. draws)

run_recv_loop-receive_example :
    Served.sessions (
      Serving.users handler wire wire_laws stream closing (some done) (
        run_recv_loop wire stream
          (Served.Counted (Session Tree))
          (Served.handlers sample hooks codec ada
            (λ n. n)
            (λ n. draws)
            wire
            wire_laws
            stream
            (some done))
          (Serving.arrivals handler wire wire_laws stream closing
            (some done)
            (codes "23" ∷ codes "1" ∷ []))
          held))
    ≡ (receive sample hooks codec ada (
            Served.events sample hooks codec ada
              (λ n. n)
              (λ n. draws)
              0
              ((false, codes "2") ∷ (false, codes "3") ∷ (false, codes "1") ∷ []))
          >> on_server (handle_client_disconnect sample hooks (codes "s1")))
        held.user.state
unfolding dispatched
run_recv_loop-receive_example =
    Served.run_recv_loop-receive sample hooks codec ada (λ n. n) (λ n. draws) wire wire_laws stream
      (some done) (codes "23" ∷ codes "1" ∷ []) held tt tt (letters (codes "231")) ready
      (omega arith, (omega arith, tt)) refl
  where
    ready : Delivery.IsReady wire wire_laws stream held.connection tt
    ready = Delivery.construct-IsReady wire wire_laws stream false ([], [])
