-- ===== src/IssuerKey/Released.antt =====
-- Every refresh that a fetch starts, it completes, on every path.
use pg_oauth_validator.SharedCache.Operations.{Wait}
use pg_oauth_validator.CacheState.Types.{
  RefreshResult, started, in_progress, suppressed, capacity_full, invalid_argument, Refresh,
}
use pg_oauth_validator.HttpTransport.Request.{UrlHost, url_host_ok, url_host_failed, http_url_host}
use pg_oauth_validator.HttpTransport.Transfer.{Got, got, not_got}
use pg_oauth_validator.IssuerKey.Context.{
  IssuerKeyError, metadata_http_failed, metadata_invalid, CachePolicy, IssuerKeyPolicy, Context,
  Step, fail_with, continue, give_up, complete_response, set_http_error, set_metadata_error,
  look_up, begin_refresh, wait_refresh, advance, is_positive,
}
use pg_oauth_validator.IssuerKey.Documents.{
  Origin, from_cache, from_refresh, from_request, body_of, fresh_copy, metadata_requested,
  metadata_copied, metadata_waited, metadata_begun, metadata_found, cached_metadata,
  metadata_direct, drop_origin, stored_or_fail, store_metadata, metadata_host, metadata_parsed,
  use_metadata,
}
use pg_oauth_validator.SharedCache.Io.{CacheIo}
use pg_oauth_validator.IssuerKey.Io.{Requests}
use pg_oauth_validator.IssuerKey.Protocol.{
  Protocol, IdleAt, EndsIdle, continue-EndsIdle, give_up_idle, complete_response_idle, Begun,
  begin_refresh-Ends, look_up_idle, wait_refresh_idle, advance_idle,
}
use pg_oauth_validator.IssuerKey.Rules.{Ends, continue-Ends}
use pg_oauth_validator.Metadata.Parse.{Metadata, parsed, refused, MetadataError, metadata_parse}
use pg_oauth_validator.Json.{Jansson}
use pg_oauth_validator.Url.Parts.{CurlUrl}
use pg_oauth_validator.Base.{
  inl, inr, ◌⊎◌, true, false, none, some, Bytes, ℤ, ℕ, Bool, Option, Bool-cases, pos, not,
}

module _ (J : Jansson) (curl : CurlUrl) (getdate : Bytes → ℤ) (io : CacheIo) (web : Requests)
    (P : Protocol io) where
  -- A document of a refresh comes with the refresh open.
  abbrev pub Held : Origin → Context J io → Type 0
  Held (from_refresh r x) c = P.Open r c.cache
  Held (from_cache b) c = IdleAt J io P c
  Held (from_request x) c = IdleAt J io P c

  abbrev pub EndsHeld : Context J io × (IssuerKeyError ⊎ Origin) → Type 0
  EndsHeld x = Ends J io Held (λ e c. IdleAt J io P c) x

  continue-EndsHeld :
      {A : Type 0} (f : A → Step J io Origin) (x : Context J io × (IssuerKeyError ⊎ A))
      → EndsIdle J io P x
      → ((a : A) (c : Context J io) → IdleAt J io P c → EndsHeld (f a c))
      → EndsHeld (continue J io f x)
  continue-EndsHeld f x h k =
      continue-Ends J io (λ a c. IdleAt J io P c) Held (λ e c. IdleAt J io P c) f x h k

  module _ (p : IssuerKeyPolicy) (q : CachePolicy) (url key : Bytes) (size : ℕ) where
    metadata_requested_held :
        (r : Refresh) (g : Got) (c : Context J io)
        → P.Open r c.cache
        → EndsHeld (metadata_requested J curl getdate io web p q url key size r g c)
    unfolding metadata_requested set_http_error
    metadata_requested_held r (got x) c h = h
    metadata_requested_held r (not_got e) c h =
        continue-EndsHeld (λ v. fail_with J io metadata_http_failed)
          (give_up J io r (record c { http_error = some e }))
          (give_up_idle J io P r (record c { http_error = some e }) h) λ a c' i. i

    metadata_copied_held :
        (o : Option Bytes) (c : Context J io)
        → IdleAt J io P c
        → EndsHeld (metadata_copied J curl getdate io web p q url key size o c)
    unfolding metadata_copied
    metadata_copied_held none c h = h
    metadata_copied_held (some b) c h = h

    metadata_waited_held :
        (w : Wait) (c : Context J io)
        → IdleAt J io P c
        → EndsHeld (metadata_waited J curl getdate io web p q url key size w c)
    unfolding metadata_waited
    metadata_waited_held w c h = elim (Bool-cases (not w.result)) [
      | inl e ↦ rw e h
      | inr e ↦ rw e (
          continue-EndsHeld _ (advance J io w.elapsed_ms c) (advance_idle J io P w.elapsed_ms c h)
            λ a c' i.
              continue-EndsHeld _ (look_up J io key false size c')
                (look_up_idle J io P key false size c' i)
                λ l c'' j. metadata_copied_held (fresh_copy l) c'' j)
    ]

    metadata_begun_held :
        (b : RefreshResult × Refresh) (c : Context J io)
        → Begun J io P b c
        → EndsHeld (metadata_begun J curl getdate io web p q url key size b c)
    unfolding metadata_begun
    metadata_begun_held (started, r) c h =
        metadata_requested_held r (web.metadata_request url p.metadata_http) c h
    metadata_begun_held (in_progress, r) c h =
        elim (Bool-cases (is_positive q.refresh_wait_timeout_ms)) [
          | inr e ↦ rw e h
          | inl e ↦ rw e (
              continue-EndsHeld _ (wait_refresh J io key q.refresh_wait_timeout_ms c)
                (wait_refresh_idle J io P key q.refresh_wait_timeout_ms c h)
                λ w c' i. metadata_waited_held w c' i)
        ]
    metadata_begun_held (suppressed, r) c h = h
    metadata_begun_held (capacity_full, r) c h = h
    metadata_begun_held (invalid_argument, r) c h = h

    metadata_found_held :
        (o : Option Bytes) (c : Context J io)
        → IdleAt J io P c
        → EndsHeld (metadata_found J curl getdate io web p q url key size o c)
    unfolding metadata_found
    metadata_found_held (some b) c h = h
    metadata_found_held none c h =
        continue-Ends J io (Begun J io P) Held (λ e c. IdleAt J io P c) _
          (begin_refresh J io key false (pos 0) c) (begin_refresh-Ends J io P key false (pos 0) c h)
          λ b c' i. metadata_begun_held b c' i

    pub cached_metadata_held :
        (c : Context J io)
        → IdleAt J io P c
        → EndsHeld (cached_metadata J curl getdate io web p q url key size c)
    unfolding cached_metadata
    cached_metadata_held c h =
        continue-EndsHeld _ (look_up J io key false size c) (look_up_idle J io P key false size c h)
          λ l c' i. metadata_found_held (fresh_copy l) c' i

  pub metadata_direct_held :
      (g : Got) (c : Context J io)
      → IdleAt J io P c
      → EndsIdle J io P (metadata_direct J curl getdate io web g c)
  unfolding metadata_direct set_http_error
  metadata_direct_held (got x) c h = h
  metadata_direct_held (not_got e) c h = h

  drop_origin_idle :
      (o : Origin) (c : Context J io)
      → Held o c
      → EndsIdle J io P (drop_origin J curl getdate io web o c)
  unfolding drop_origin
  drop_origin_idle (from_refresh r x) c h = give_up_idle J io P r c h
  drop_origin_idle (from_cache b) c h = h
  drop_origin_idle (from_request x) c h = h

  pub stored_or_fail_idle :
      (b : Bool) (c : Context J io)
      → IdleAt J io P c
      → EndsIdle J io P (stored_or_fail J curl getdate io web b c)
  unfolding stored_or_fail
  stored_or_fail_idle true c h = h
  stored_or_fail_idle false c h = h

  -- With no cache there is no refresh.
  abbrev pub Matches : Option CachePolicy → Origin → Context J io → Type 0
  Matches (some q) o c = Held o c
  Matches none (from_refresh r x) c = ⊥
  Matches none (from_cache b) c = IdleAt J io P c
  Matches none (from_request x) c = IdleAt J io P c

  drop_then_fail :
      (o : Origin) (c : Context J io)
      → Held o c
      → EndsIdle J io P (
          continue J io
            (λ v. fail_with J io {A = Bytes × Bytes} metadata_invalid)
            (drop_origin J curl getdate io web o c))
  drop_then_fail o c h =
      continue-EndsIdle J io P (λ v. fail_with J io metadata_invalid)
        (drop_origin J curl getdate io web o c) (drop_origin_idle o c h) λ a c' i. i

  store_metadata_idle :
      (time : ℤ) (q : Option CachePolicy) (o : Origin) (c : Context J io)
      → Matches q o c
      → EndsIdle J io P (store_metadata J curl getdate io web time q o c)
  unfolding store_metadata
  store_metadata_idle time (some q) (from_refresh r x) c h =
      continue-EndsIdle J io P (stored_or_fail J curl getdate io web)
        (complete_response J io getdate r time q.metadata_freshness (pos 0) x c)
        (complete_response_idle J io P getdate r time q.metadata_freshness (pos 0) x c h)
        λ b c' i. stored_or_fail_idle b c' i
  store_metadata_idle time none (from_refresh r x) c h = absurd h
  store_metadata_idle time (some q) (from_cache b) c h = h
  store_metadata_idle time none (from_cache b) c h = h
  store_metadata_idle time (some q) (from_request x) c h = h
  store_metadata_idle time none (from_request x) c h = h

  Matches-Held : (q : Option CachePolicy) (o : Origin) (c : Context J io) → Matches q o c → Held o c
  Matches-Held (some q) o c h = h
  Matches-Held none (from_refresh r x) c h = absurd h
  Matches-Held none (from_cache b) c h = h
  Matches-Held none (from_request x) c h = h

  metadata_host_idle :
      (uri : Bytes) (u : UrlHost curl) (c : Context J io)
      → IdleAt J io P c
      → EndsIdle J io P (metadata_host J curl getdate io web uri u c)
  unfolding metadata_host set_http_error
  metadata_host_idle uri (url_host_ok host) c h = h
  metadata_host_idle uri (url_host_failed e) c h = h

  same_owner :
      (q : Option CachePolicy) (o : Origin) (c : Context J io) (e : Option MetadataError)
      → Matches q o c
      → Matches q o (record c { metadata_error = e })
  same_owner (some q) (from_refresh r x) c e h = h
  same_owner (some q) (from_cache b) c e h = h
  same_owner (some q) (from_request x) c e h = h
  same_owner none (from_refresh r x) c e h = h
  same_owner none (from_cache b) c e h = h
  same_owner none (from_request x) c e h = h

  metadata_parsed_idle :
      (p : IssuerKeyPolicy) (q : Option CachePolicy) (time : ℤ) (url : Bytes) (o : Origin)
      (m : Metadata) (c : Context J io)
      → Matches q o c
      → EndsIdle J io P (metadata_parsed J curl getdate io web p q time url o m c)
  unfolding metadata_parsed set_metadata_error
  metadata_parsed_idle p q time url o (refused e) c h =
      let c' : Context J io = record c { metadata_error = some e } in
      drop_then_fail o c' (Matches-Held q o c' (same_owner q o c (some e) h))
  metadata_parsed_idle p q time url o (parsed uri) c h =
      let c' : Context J io = record c { metadata_error = none } in
      let host : Unit {0} → Step J io (Bytes × Bytes) = λ v.
        metadata_host J curl getdate io web uri (
          http_url_host curl (some url) p.metadata_http.max_url_size
            p.metadata_http.allow_insecure_http) in
      continue-EndsIdle J io P host (store_metadata J curl getdate io web time q o c')
        (store_metadata_idle time q o c' (same_owner q o c none h))
        λ a d i.
          metadata_host_idle uri
            (http_url_host curl (some url) p.metadata_http.max_url_size
              p.metadata_http.allow_insecure_http)
            d i

  pub use_metadata_idle :
      (p : IssuerKeyPolicy) (q : Option CachePolicy) (time : ℤ) (url issuer : Bytes) (o : Origin)
      (c : Context J io)
      → Matches q o c
      → EndsIdle J io P (use_metadata J curl getdate io web p q time url issuer o c)
  unfolding use_metadata
  use_metadata_idle p q time url issuer o c h =
      metadata_parsed_idle p q time url o
        (metadata_parse J curl (some (body_of o)) (some issuer) (some p.metadata)) c h
