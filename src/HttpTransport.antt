-- ===== src/HttpTransport.antt =====
-- http_transport.c: one HTTP request for a JSON document. libcurl is a parameter.
pub mod Buffer
pub mod Request
pub mod Transfer
pub mod Bounded
pub mod Loop
pub mod Sound
pub mod Received
mod Tests
