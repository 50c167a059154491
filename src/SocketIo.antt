-- ===== src/SocketIo.antt =====
-- internal/socketio: the real-time channel.
pub mod Protocol
pub mod Connections
pub mod KeepAlive
pub mod Acks
pub mod Events
pub mod Send
