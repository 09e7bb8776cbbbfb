-- ===== src/Ws.antt =====
-- internal/ws: the websocket client, its protocol and its reconnect loop.
pub mod Protocol
pub mod Config
pub mod Client
pub mod Run
