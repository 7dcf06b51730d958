-- ===== src/Lib.antt =====
-- blueboat-cpp, a server for multiplayer games: clients connect by web socket, create and join
-- rooms, and exchange messages with a game that overrides a room's virtual methods. This library
-- models the server, the client library and what they stand on, and proves what makes the parts
-- correct, alone and together.
--
-- The parts, from the bottom up, each with the code that it models:
--   Json      nlohmann::json, an interface with documented laws; Json/Sample is an instance of it
--   Socket    common/include/blueboat/common/socket.hpp, an interface with its promise, and with the
--             laws of a stream for the parts that take every result of 0 or below for the end; and
--             common/src/socket.cpp, with the kernel as a parameter
--   Tls       common/src/tls_socket.cpp, with OpenSSL as a parameter: it implements that interface
--   Protocol  common/include/blueboat/common/protocol.hpp
--   Snapshot  server/include/blueboat/room_snapshot.hpp and simple_client.hpp
--   Storage   server/src/memory_storage.cpp
--   RoomFetcher, GameValues
--             server/src/room_fetcher.cpp and game_values.cpp, on the store
--   Callback  common/include/blueboat/common/callback.hpp
--   PubSub    server/src/memory_pubsub.cpp and server/include/blueboat/pubsub.hpp
--   Scheduler common/src/scheduler.cpp
--   Http      common/src/http.cpp, on the socket
--   Sio       common/src/sio_protocol.cpp, with the msgpack codec as a parameter
--   Msgpack   common/src/msgpack_codec.cpp, with msgpack-c as a parameter: an instance of that codec
--   RandomId  common/src/random_id.cpp
--   Handshake common/src/ws_handshake.cpp, with OpenSSL as a parameter
--   Tcp       common/src/tcp.cpp, with the kernel as a parameter
--   WsConnection
--             common/src/ws_connection.cpp, on a socket, with wslay as a parameter
--   Waiting   run_forever in server/src/server.cpp and the worker of common/src/scheduler.cpp: a
--             thread that waits on a condition variable for a flag
--   GameLock  server/include/blueboat/game_lock.hpp: threads that take one mutex by guards
--   Room      server/src/room.cpp: Room/State, Room/Lifecycle and Room/Messages; the game's code is
--             a parameter, `Hooks`, that may change the room's world and throw; a wait for a client
--             that left in Room/Reconnection
--   Server    server/src/server.cpp: Server/State, Server/Creation, Server/Requests, and the admin API
--             in Server/Auth and Server/Admin, with OpenSSL's base64 decoder as a parameter; a
--             connection's life in Server/Connection, making a server, listening and shutdown in
--             Server/Host
--   Client    client/src/client.cpp and room.cpp: Client/State, Client/Rooms and Client/Connection;
--             the application's listeners are a parameter
--   ChatRoom, ChatClient
--             examples/server/chat_room.cpp, an instance of `Hooks`, and examples/client/main.cpp
-- Base has lists, bytes, maps and results; Run is the monad of statements that change a state and
-- may throw. A C++ exception is a value with its text; what was written before a throw stays.
--
-- How they interact. A frame from a client is parsed by Sio and handled by Server.Requests, which
-- creates rooms or publishes on the PubSub channels. The listeners there are rooms: `run_handler`
-- runs a room's code on the world that the server shares with it, its frames go to the connected
-- clients, and the rooms that report that they are disposed are dropped. Client/Wire has what a
-- client and a server make of each other's messages, Client/Handshaking what the server makes of
-- the client's handshake, and Client/Rejoining what a client does after a lost connection. A name
-- in the model is the source's name; a clock, a random id and a custom room id are arguments.
--
-- Bounds and fuel. `dispose` and `remove_client` call one another, on fuel: two levels are enough,
-- since a room that is being disposed is not disposed again. The loops of Http run on the bytes
-- that may still come, and each read or write that succeeds moves at least one byte. A web socket
-- connection reads pieces of at most 65,536 bytes, and wslay asks for bytes at most once more.
-- Sizes wrap at 2 ^ 64 in `trim`, and `stoul` fails out of range. Times are milliseconds, as
-- natural numbers.
--
-- Each operation of the server holds the game lock, and each is one step here: GameLock is about
-- the threads and the lock alone, in any order of their steps. The admin API's request for a room
-- waits without the lock, and so does a room for a client that left: Room/Reconnection is about what
-- may happen in that time. What a room publishes are answers to the request of the admin API: a room
-- whose id is the name of their channel gets none. Maps are association lists with the order of
-- insertion, where the source's hash maps have any order. Two JSON values are the same in Json when
-- nlohmann::json compares them equal, as an integer and an unsigned number of one value; the trees of
-- Msgpack tell these apart, and Msgpack/Frames has what they stand for.
--
-- Where code waits for what happens outside, that is an argument: the outcomes of the rounds of the
-- client's loop and of the accept loop, the messages, idle times and steps of other threads of a
-- connection. A loop runs for as long as they are given.
--
-- A game's methods return or throw in the model: what is stated of a call that a game takes part in
-- holds where they do. In `shutdown` the accept thread is an argument that need not end.
--
-- Not modelled: the memory of objects that threads share, but where it is said; a method of a game
-- that waits for ever or locks what its thread has locked; what is printed; the
-- waits between a client's attempts to connect; the bytes of frames on the wire, which are wslay's;
-- the server's sample program, which only calls the server.
pub mod Base
pub mod Callback
pub mod ChatClient
pub mod ChatRoom
pub mod Client
pub mod GameLock
pub mod GameValues
pub mod Handshake
pub mod Http
pub mod Json
pub mod Msgpack
pub mod Protocol
pub mod PubSub
pub mod RandomId
pub mod Room
pub mod RoomFetcher
pub mod Run
pub mod Scheduler
pub mod Server
pub mod Sio
pub mod Snapshot
pub mod Socket
pub mod Storage
pub mod Tcp
pub mod Tests
pub mod Tls
pub mod Waiting
pub mod WsConnection
