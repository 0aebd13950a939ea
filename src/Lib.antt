-- ===== src/Lib.antt =====
-- A model of securetunnel: an open client (localproxy) and a test server of AWS IoT secure
-- tunneling, in Go. A localproxy in source mode listens for applications, and one in destination
-- mode connects to services; both hold a WebSocket to the server, which forwards the messages of
-- one to the other. Streams of bytes are multiplexed over it by stream ids.
--
-- Parts:
-- - Base: lists, dictionaries and texts that the others share. A Go map is an association list, whose
--   order stands for one order of iteration; a Go string is the list of its code points.
-- - Aws: aws/mode.go, aws/const.go, and in Aws/Frame the reader and writer of aws/messagerw.go.
--   `next` is `Next`, `fill` the loop of `readAtLeast`, `serialize_message` is `SerializeMessage`.
--   The loop takes one WebSocket message a round from a list, so it needs no fuel.
-- - Client: client/worker.go, client/workermanager.go and the dispatch of client/awsclient.go
--   (`invoke_event`, `run_next`, the sends); Client/Draining is the loop of one worker. Client/Dial is
--   `NewAWSClient` with `connect`, Client/Session is `start`, one connection with its three goroutines,
--   Client/Retry is `Run`, on the errors of its rounds, and Client/Rounds joins these two.
-- - Proxy: proxy/idgen.go, proxy/serviceconfig.go (Config), proxy/socket.go with
--   proxy/socket_manager.go (Sockets), the handlers of proxy/localproxy.go (Listener), which work on
--   the sockets, `NewLocalProxy` with `NewTCPServer` of proxy/localserver.go (Launch), and its accept
--   loop with `Stop` (Accepting). Bridge is the client with that listener: the calls which a step of
--   the client makes change the proxy, and the client sends what the sockets hand to it. Running is
--   `Run` of the proxy.
-- - Server/Id, Server/Tunnel and Server/Store: misc/server/id.go, tunnel.go and store_memory.go. The
--   store is two instances of one table with revisions (Store/Table).
-- - Server/World and Server/Api: the handlers of misc/server/services_*.go over the store and a
--   heap of peers, since the copies of a tunnel share their peers through pointers. Server/Service
--   lets requests come in any order, where `TunnelConnect` is split at the points where it waits, and
--   `CloseTunnel` between its reading and its update.
-- - Server/Routes: the routes of misc/server/cmd/mitra_tunneld/main.go, and the filter of
--   misc/server/services_auth.go. Server/Binding is `PreProcess` of misc/server/services.go, with what
--   it binds for `TunnelConnect`. Server/Startup is the start of mitra_tunneld with its plug-ins,
--   misc/server/auth.go and notify.go.
-- - Server/Peers: misc/server/peerconmanager.go and peerconnection.go, as a relation whose steps are
--   the critical sections and the rounds of the goroutines, in any order.
--   Peers/Relay compares two associated connections with a queue for each direction. Server/Running
--   is `run` with its reader and writer, where the messages are only counted.
-- - Handshake: the client's request at the server's route, and the answer at the client. The WebSocket
--   library and gin stand in between, as a `Wire` with what they are relied on for.
-- - Cmd: cmd/common/common.go with log/log.go (Logger), cmd/mitra_localproxy up to the options
--   (Options), the rest of its `main` as a process in time (Process), and what it prints of its
--   arguments (Console).
-- - Tests: runs at concrete inputs.
--
-- Integers: the message size is a uint16, a duration an int64, an id an int32 and a revision a uint
-- of 64 bits; each wraps around as it does in Go. A time is a number of nanoseconds.
--
-- Parameters: the protobuf codec, random draws, sha256, sorting, the answers of the notifier and the
-- authorizer, the flags that pflag finds and its text for them, what gin finds in a request, the
-- parsers of urls and Booleans, the time of each call, the results of dialing and of listening, and
-- whether the network takes a write.
--
-- Fuel: none of the program's loops runs on fuel. The proofs that `start` of the client and `run` of a
-- connection of the server return count the steps left, which every step of a goroutine makes fewer.
--
-- Not modelled: the WebSocket and HTTP libraries, what a ping holds, another request between the update
-- and the deletion of one `CloseTunnel`, a second call of `TCPServer.Stop`,
-- generated code, mocks and test utilities, and the texts of errors, of the log and of the usage. A
-- lock makes the code that holds it one step, and a timer fires at its time.
pub mod Base
pub mod Aws
pub mod Client
pub mod Proxy
pub mod Server
pub mod Handshake
pub mod Cmd
pub mod Tests
