-- ===== src/Realtime.antt =====
-- The realtime subsystem (src/realtime): presence, heartbeats, broadcast and topics.
pub mod Heartbeat
pub mod Tokio
pub mod Broadcast
pub mod Presence
pub mod Topic
pub mod Channel
