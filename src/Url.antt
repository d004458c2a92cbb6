-- ===== src/Url.antt =====
-- The URL tests that metadata.c and http_transport.c share: the octets, the scheme, the authority,
-- and the parser of libcurl.
pub mod Parts
pub mod Clean
