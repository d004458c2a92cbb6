-- ===== src/Lib.antt =====
-- Verification of pg_oauth_validator, a PostgreSQL module that validates OAuth access tokens.
--
-- A connection hands its token to the validator (src/validator.c), which parses the envelope of the
-- token, fetches the provider's metadata and keys (src/issuer_key.c) through a cache in shared
-- memory (src/shared_cache.c, src/cache_state.c), verifies the signature, checks the claims and
-- builds the identity. How long a document stays in the cache follows from the headers of the HTTP
-- response (src/http_freshness.c).
--
-- Base holds the shared names: Boolean tests on native numbers, lists, integers, byte strings.
--
-- CacheState models src/cache_state.c: the array of entries with its control block (Types), and
-- one function for each operation, pg_oauth_cache_lookup (Lookup), pg_oauth_cache_begin_refresh
-- (Begin), pg_oauth_cache_complete_refresh (Complete), the others beside them. The state goes in
-- and comes out. History has the operations as data and runs a list of them, which is any
-- interleaving of the backends, since each call holds the lock of src/shared_cache.c. View is the
-- array as a map from keys to entries.
--
-- HttpFreshness models src/http_freshness.c: the header parsers (Headers) and
-- pg_oauth_http_freshness_calculate (Calculate). curl_getdate is a parameter, since it belongs to
-- libcurl; nothing is assumed of it.
--
-- CacheKey models src/cache_key.c: the guards of pg_oauth_cache_key_build and its chain of appends,
-- whose calls are the list items_of (Build). Layout, Width and Injective are about the encoding,
-- Policies about the policies that share a key. The keys are those of CacheState.
--
-- Base64Url models src/base64url.c (Codec); JwtEnvelope models src/jwt_envelope.c (Parse), which
-- decodes the segments of a token by it; Claims models src/claims.c (Policy, Scopes, Audience, Roles,
-- Validate). Both read JSON values through the record Jansson of Json, the interface of the JSON
-- library, which is a parameter: nothing is assumed of it. An accepted token and an accepted payload
-- are described in JwtEnvelope/Accepted and Claims/Accepted.
--
-- Identity models src/identity.c (Build), with UTF-8 described on its own in Utf8. Validator models
-- src/validator.c (Pipeline): the stages in their order. It uses the models of the envelope, the
-- claims and the identity; the fetch of the key and the verification of the signature come in by the
-- record KeySource, which Callback/Stages fills with the models of src/issuer_key.c and
-- src/signature.c.
--
-- Jwks models src/jwks.c: the tests on a key (Keys), and pg_oauth_jwks_select (Select). The tests that
-- OpenSSL makes on a public key come in by the record OpenSsl, of which nothing is assumed.
--
-- PolicyBuild models src/policy.c: the parsers of comma-separated settings (Lists) and
-- pg_oauth_policy_build (Build), which every other stage takes its bounds from.
--
-- Url holds the scan of a URL for its octets, scheme and authority that src/metadata.c and
-- src/http_transport.c both make (Parts), and what it shows of a URL (Clean). The URL parser of
-- libcurl is the record CurlUrl, of which nothing is assumed. Metadata models src/metadata.c: the
-- checks of a discovery document against the expected issuer (Parse).
--
-- HttpTransport models src/http_transport.c: the two callbacks that collect the body and the headers
-- (Buffer), the checks of a URL and its host against the allowed hosts (Request), and
-- pg_oauth_http_get_json (Transfer). What libcurl does in one request is an Exchange: which of its
-- setup steps fail, and for each round of the loop whether an interrupt is seen, what the callbacks
-- get and whether the transfer still runs. The loop of the code ends only when libcurl says so or an
-- interrupt comes, so it runs on fuel, and Loop shows how much is enough.
--
-- SharedCache models src/shared_cache.c and src/cache_io.h: the segment and its attachment (State),
-- each operation under the lock (Operations), and the record of operations that the fetch of a key
-- takes (Io). PostgreSQL's registry of segments is the record Registry; where it raises an error for
-- a segment of another size, the model has the check of the capacity refuse it. System has several backends
-- at one segment, and Refinement relates what they do to a history of CacheState. A lock is held for
-- the whole of an operation, so an operation is one step. A backend that sleeps is given the
-- operations of the others meanwhile.
--
-- IssuerKey models src/issuer_key.c: the state of a fetch and its steps, which stop at the first error
-- (Context), the metadata (Documents), the key set (Keys) and the whole of
-- pg_oauth_issuer_key_fetch_cached (Fetch). It works on any cache that has the operations of
-- CacheIo, and on any provider (Requests). Protocol, Released and Traced follow the refreshes that a
-- fetch begins and completes; Provenance, Selected and Sources follow where a document and a key come
-- from, call by call from the state and the time in which the fetch starts.
--
-- Signature models src/signature.c (Verify). libjwt, with the serialisation of a key by Jansson, is the
-- record Libjwt.
--
-- Callback models src/pg_oauth_validator.c, src/config.c and src/hba_policy.c: the settings and the
-- rule (Settings), the policy of each stage from them (Stages), and pg_oauth_validator_validate
-- (Validate). What the callback finds, as the clocks, the rule and the answers of the provider, is an
-- Environment; the detail of a rejection is that of PostgreSQL 19. Example is the provider of the
-- tests.
--
-- Bounds: stored times are nonnegative int64 values and serials wrap at 2^64, as in the code; the
-- size of a header that is still free wraps at 2^64 too. Two loops run on fuel. That of valid_utf8 has
-- as much as the text has bytes, and each round takes a byte (Identity/Encode shows that it suffices);
-- that of the transfer is described above. The others are structural recursions over the entries or
-- the bytes. Memory is given except for the buffers of a transfer: the other errors of malloc are left
-- out.
--
-- Not modelled: the functions that only free memory; the strings of the error codes; the calls that
-- register settings, options and callbacks with PostgreSQL; its messages.
pub mod Base
pub mod Json
pub mod Base64Url
pub mod JwtEnvelope
pub mod Claims
pub mod Identity
pub mod HttpFreshness
pub mod CacheKey
pub mod CacheState
pub mod PolicyBuild
pub mod Url
pub mod Metadata
pub mod Example
pub mod HttpTransport
pub mod SharedCache
pub mod Jwks
pub mod IssuerKey
pub mod Signature
pub mod Validator
pub mod Callback
