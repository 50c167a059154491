-- ===== src/Lib.antt =====
-- happy-server-lite: the state and the protocols of the server.
--
-- The server keeps accounts, login requests, sessions with their messages, machines and artifacts in
-- memory, writes the machines to a file, limits requests, and pushes updates to connected clients.
-- Each part is a module; an operation of the code is a function of the same name in snake case.
--
-- - Model: the structs of internal/model/types.go.
-- - Store: internal/store. `State` is the struct `Store`, `Accounts`, `Sessions`, `Messages`,
--   `Machines` and `Artifacts` its operations (store.go, message_store.go, seq.go, artifacts.go), and
--   `Persistence` the file of the machines. An operation takes the store and gives the new one with
--   the reply, in one step: the code holds its lock for that long, but in `AppendMessage`, which takes
--   three locks one after the other. `Register` is the abstract register with versions that settings,
--   metadata, agent state and daemon state are compared with, and `History` runs the operations on
--   sessions and messages in any order.
-- - Store.Isolation: what one user can read of the store, compared before and after the operations of
--   another.
-- - Auth: internal/auth, the checks around the JWT library and the signatures.
-- - Middleware: internal/middleware. `RateLimit` is ratelimit.go, with the clock as an argument, and
--   `Authentication` auth.go.
-- - Hub: internal/hub/hub.go. The outcome of each write is an argument.
-- - SocketIo: internal/socketio. `Protocol` is protocol.go; `Connections` is the part of server.go
--   that connects clients, puts them into rooms and takes them out; it reads the store by
--   `get_session` and `get_machine`. `Events` is what a connected client may send: a handler takes the
--   store, the server and the number of the last update, and gives them back with its effects, a list
--   of answers and broadcasts in their order. `Send` carries the effects out on the queues of the
--   connections. `KeepAlive` is the ping loop, a state and a list of times, and `Acks` the table of
--   pending answers, a state and the steps of calls and answers in any order.
-- - Http: internal/handler and internal/server/router.go. A handler takes the store and what it uses
--   of the request, and gives the store and its answer; `Router` puts the group of the protected
--   routes behind the authentication, and `Channel` is websocket.go over the hub.
-- - Json: the values that the server hands to encoding/json.
-- - Config: internal/config/config.go, with the environment as a function.
-- - Base: strings as bytes, maps as lists of entries in the order of a visit, 64-bit integers as
--   two's-complement patterns, sorting and strconv, with their lemmas.
-- - Tests: each theorem at a concrete input, and runs of the definitions.
--
-- Maps: Go leaves the order of a visit open; theorems hold for every order of the entries. Identifiers
-- that the code draws by `uuid.NewString`, random bytes and the time are arguments. `strconv.Itoa` runs
-- on fuel for 20 digits, which print every 64-bit number. A broadcast runs on fuel for the nesting of
-- broadcasts in it: each one that a failed connection causes starts with fewer connections in rooms,
-- so that one more than the number of connections is enough.
--
-- A page of messages is allocated with the client's limit as its capacity: above 3909374911580 messages,
-- 2 ^ 48 bytes, Go's allocation on amd64 panics, which is `none` in `list_messages`.
--
-- Parameters: encoding/json (`Codec`, the decoders of the bodies, and the file's `marshal` and
-- `unmarshal`), the JWT library, base64 and Ed25519, the file system's outcomes, and the answer of a
-- client that is called. Not modelled: gin's matching of paths and log, and its recovery but for the
-- answer to the one panic that the handlers can reach; memory that runs out; the upgrade to a
-- WebSocket, its deadlines and its read and write loops; listening and TLS in
-- internal/server/server.go and cmd/server; goroutines and locks, so that an event, a request and a
-- broadcast are each one step.
pub mod Base
pub mod Model
pub mod Store
pub mod Middleware
pub mod Json
pub mod Auth
pub mod Http
pub mod Hub
pub mod SocketIo
pub mod Config
pub mod Tests
