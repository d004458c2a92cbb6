-- ===== src/HttpFreshness.antt =====
-- http_freshness.c: how long a response may be cached, from its headers and the local policy.
-- A header is `none` where the response had none. `curl_getdate` is a parameter: it maps a date
-- to seconds, and -1 means that it could not read it. Results are nonnegative int64 values.
pub mod Headers
pub mod Decimal
pub mod Calculate
pub mod Directives
pub mod Bounds
mod Tests
