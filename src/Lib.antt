-- ===== src/Lib.antt =====
-- The servers of the KiHan game: the login server, which gives out tokens; the gateway, which keeps
-- the clients' sessions and passes their messages on; the lobby server, which matches players; and
-- the game server, which runs a match in lockstep. Paths are from the repository's root.
--
-- The parts and their files:
--   Base        shared: tests on numbers, ℤ, lists, maps, words, bytes and `std::to_string`.
--   Proto       the messages of game_server/proto, and the generated code as the interface `Codec`.
--   LobbyProto  the messages of lobby_server/proto/client_lobby.proto, with `LobbyCodec`.
--   Json        the calls of nlohmann::json as the interface `Json`.
--   Sessions    the session table of RoomManager and GrpcSessionStream (game_server/src/
--               game_service.h); what is written on the streams is one log.
--   Room        game_server/src/room.cpp and player.h; one function per method of `Room`.
--   Manager     game_server/src/room_manager.cpp: `rooms_`, `uid_to_room_`, and a round of RunLoop;
--               Manager.Running is the loop with its flag and Stop, and Manager.Process adds the
--               main thread of game_server/src/main.cpp.
--   Service     StreamBattle of game_server/src/game_service.cpp: `process_req` is the lambda of
--               that name, `open_stream` and `close_stream` what comes before and after the requests.
--   Control     CreateRoom of game_server/src/game_service.cpp.
--   World       all threads of the game server as one step relation, a handler at a time.
--   Threads     threads that share a state under locks: tasks, what they rely on and guarantee
--               (Threads.Rely), and their interleavings (Threads.Pool, and Threads.Moves where no thread
--               is started).
--   Locks       the handlers of game_service.cpp and room_manager.cpp as such tasks, one step for
--               each critical section: Locks for the battle streams, Locks.Rooms for CreateRoom and
--               the run loop, Locks.Server for all together. Locks.Alone and Locks.AloneCalls tie
--               them to Service, Control and Manager.
--   LobbyState  the members of LobbyServiceImpl (lobby_server/src/lobby_service.h) and what is done
--               with each: the online players, the match queue, the push stream.
--   Lobby       lobby_server/src/lobby_service.cpp; one function per handler. Lobby.Subscribing is
--               the loop in which Subscribe waits.
--               Lobby.Locks has the handlers as tasks, one step for each use of a lock and each
--               call of MySQL or the game server; Lobby.Locks.Alone ties them to Lobby.
--   Db          lobby_server/src/db_manager.cpp; MySQL is the interface `Database`.
--   Lobby.Main  lobby_server/src/main.cpp, up to the call that waits for requests.
--   Packet      gateway/network/packet.go: the headers of datagrams, and the frames of a KCP stream.
--   Gateway     gateway/network/manager.go and session.go: the sessions, `Send` and `Close`.
--   Traffic     the rounds of the gateway's loops: ws_server.go, udp_server.go, kcp_conn.go and
--               DispatchPacket in gateway/network/, the kick and push loops of gateway/main.go.
--               Traffic.Join is ServeHTTP. Traffic.Reach takes the rounds in any order,
--               Traffic.Registry is the specification that they refine, and Traffic.System puts the
--               lobby behind them. Traffic.Sections is readLoop and Close lock by lock.
--               Traffic.Relay is the way of a game from the room to a client, and
--               Traffic.Matched the one of a match from the lobby to two clients.
--   Login       login_server/main.go: tokens and the handlers of /api. Login.Version is
--               CompareVersion.
--   Tests       stand-ins for the interfaces, and the model on concrete inputs.
--
-- How they interact: a login stores a token in Redis and publishes the text of a kick, in which the
-- uid is a string. What json.Unmarshal makes of such a text is an argument of the gateway's
-- `on_kick`; it gives an error for this one. The gateway's ServeHTTP looks the token up and makes a
-- session; its messages below 2000 go to the lobby's
-- `handle_request` and the others to the game server; a closed session is told to the lobby. The
-- second player of a match makes the lobby call CreateRoom (`GameStub`, which Lobby.Matching fills
-- with Control.create_room) and push a notice to both. The players then open battle streams, enter
-- the room and get ready; the run loop starts the game and ticks; inputs go into the frame; a
-- request or the end of a stream stops the game and destroys the room.
--
-- State: `shared_ptr<Room>` is an index into a heap of rooms, so a room that left `rooms_` lives on
-- for a run loop that still holds it. An unordered_map is an association list with one entry for a
-- key (`Map`), and no theorem depends on the order in which it is iterated, apart from the order of
-- the run loop's rounds over different rooms. An exception or a null dereference is `none`.
--
-- A `*Session` is an index into a heap of sessions too. What the gateway writes is a log of effects,
-- and the calls of ClientDisconnect that are under way are a list of which any may be next. Redis is
-- a map of its keys; whether a call to it succeeds, what the random generator draws and what a
-- connection does are arguments. A Go panic is `none`. MySQL, SHA-256, gRPC, KCP and JSON are
-- interfaces or left out.
--
-- Bounds and fuel: a uint32 that the code computes is taken modulo 2 ^ 32 (frame ids, the number of
-- players, a parsed uid); the size of the online set is cast to an int32; room ids are bounded by
-- the limit of CreateRoom.
-- `std::to_string` is fuelled with ten digits, as many as a 32-bit word has. `std::stoul` is 64
-- bits wide, `strconv.ParseUint` is limited to 32 bits and `strconv.Atoi` to 64. The frame writers
-- compute their sizes modulo 2 ^ 16. The channel of KCP packets holds 1024. The loop that draws a
-- session id runs over the draws it is given, RunLoop over turns and Subscribe over seconds. The
-- loop over a KCP stream has the stream's length as fuel, and a frame takes four bytes. All other
-- loops are structural.
--
-- Concurrency: in Service, Control and World a handler, CreateRoom, the end of a stream and the
-- loop's body for one room are each one step. Locks cuts them into their critical sections, with a
-- section of its own for each access without a lock (HasPlayer, IsFull, GetState, the write of
-- `ready`), and any sections of any threads may come in between. A broadcast takes the sessions'
-- mutex inside the room's and is one section, as is GetRoomByUid, which nests two as well. That such
-- an access is itself torn, or meets a rehash of `players_`, is not modelled. The counter
-- `next_room_id` is not wrapped there, since more than 10 ^ 9 calls would have to stand between one
-- fetch_add and its store. Locks.Races has two requests to end one game that both find the room.
-- Lobby takes a handler as one step, and Lobby.Locks the sections of `online_mutex_`,
-- `match_mutex_`, `push_mutex_` and of DBManager's mutex. ClientDisconnect nests two of them and is
-- one section; a push is one too, the write on the stream included.
--
-- A round of a loop of the gateway is one step as well. Traffic.Sections cuts a datagram of readLoop
-- and Close into their sections, and has a Close between the two of them; what else may come between
-- the two locks of a round of the gateway is not modelled. A session's own steps are allowed for any
-- pointer.
--
-- Not modelled: logging, the pace of the run loop and the sending of gRPC (a failed Write is ignored
-- by the code); sockets and gRPC servers and the configuration, which are I/O;
-- LastHeartbeat, which nothing reads; the expiry of keys in Redis; what MySQL and the WebSocket and
-- KCP libraries do inside.
pub mod Base
pub mod Proto
pub mod LobbyProto
pub mod Json
pub mod Db
pub mod Sessions
pub mod Room
pub mod Manager
pub mod Service
pub mod Control
pub mod World
pub mod Threads
pub mod Locks
pub mod LobbyState
pub mod Lobby
pub mod Packet
pub mod Gateway
pub mod Traffic
pub mod Login
pub mod Tests
