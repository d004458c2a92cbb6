-- ===== src/IssuerKey/Io.antt =====
-- The HTTP requests of a fetch.
use pg_oauth_validator.HttpTransport.Request.{HttpPolicy}
use pg_oauth_validator.HttpTransport.Transfer.{Got}
use pg_oauth_validator.Base.{Bytes}

-- pg_oauth_http_get_json for the two requests of one fetch, each with its URL and its policy.
pub record Requests : Type 0 where
  pub metadata_request : Bytes → HttpPolicy → Got
  pub jwks_request : Bytes → HttpPolicy → Got
