-- ===== src/Http.antt =====
-- src/http: requests and their headers, server-sent events, streaming bodies.
pub mod Mpsc
pub mod Sse
pub mod Streaming
pub mod Headers
pub mod Method
pub mod Multipart
pub mod Request
pub mod Response
