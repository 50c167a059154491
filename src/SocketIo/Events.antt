-- ===== src/SocketIo/Events.antt =====
-- internal/socketio/server.go: the events of a connected client. What a handler does besides the
-- change of its state is the list of its effects, in order: the state changes of a handler precede
-- its broadcasts. The decoding of each event's body is an argument, as are the times, the fresh
-- identifiers and the outcome of a call to another client.
pub mod Bodies
pub mod Updates
pub mod Handlers
pub mod Routes
pub mod Kept
pub mod Audience
pub mod Sequence
pub mod Posting
