-- ===== src/Http.antt =====
-- `HttpHandler` (src/http/http_conn.cpp).
pub mod Types
pub mod Line
pub mod RequestLine
pub mod Headers
pub mod Parse
pub mod Response
pub mod Send
pub mod Request
pub mod Read
pub mod Life
pub mod Process
pub mod Handle
pub mod Samples
mod Tests
mod SendTests
mod LoadTests
mod ProcessTests
