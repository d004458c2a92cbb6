-- ===== src/IssuerKey/Sources.antt =====
-- Where the discovery document of a fetch comes from, and what the address of the key set is.
use pg_oauth_validator.SharedCache.Operations.{Wait}
use pg_oauth_validator.CacheKey.Build.{key_ok, build}
use pg_oauth_validator.CacheState.Types.{
  LookupResult, miss, fresh, stale, RefreshResult, started, in_progress, suppressed, capacity_full,
  invalid_argument, Refresh,
}
use pg_oauth_validator.HttpTransport.Request.{UrlHost, url_host_ok, url_host_failed, http_url_host}
use pg_oauth_validator.HttpTransport.Transfer.{Got, got, not_got}
use pg_oauth_validator.IssuerKey.Context.{
  IssuerKeyError, metadata_invalid, CachePolicy, IssuerKeyPolicy, Context, Step, fail_with, then_do,
  give_up, complete_refresh, set_http_error, set_metadata_error, look_up, begin_refresh,
  wait_refresh, advance, is_positive, complete_with, complete_response,
}
use pg_oauth_validator.IssuerKey.Documents.{
  Origin, body_of, fresh_copy, is_copied, is_fresh, metadata_requested, metadata_copied,
  metadata_waited, metadata_begun, metadata_found, cached_metadata, metadata_direct, drop_origin,
  store_metadata, metadata_host, metadata_parsed, use_metadata, stored_or_fail, from_cache,
  from_refresh, from_request,
}
use pg_oauth_validator.IssuerKey.Fetch.{metadata_key_policy, cached_capacity}
use pg_oauth_validator.SharedCache.Io.{CacheIo}
use pg_oauth_validator.IssuerKey.Io.{Requests}
use pg_oauth_validator.IssuerKey.Keys.{is_miss}
use pg_oauth_validator.IssuerKey.Provenance.{CopyAt, CachedMetadata, MetadataFrom, begun, waited}
use pg_oauth_validator.HttpFreshness.Calculate.{
  Result, ok, invalid_argument as bad_argument, invalid_header, calculate,
}
use pg_oauth_validator.HttpTransport.Transfer.{Response}
use pg_oauth_validator.Base.{ap, sym, subst, Bool, ◌+◌}
use pg_oauth_validator.IssuerKey.Rules.{Ends, continue-Ends, advance-Ends}
use pg_oauth_validator.Json.{Jansson}
use pg_oauth_validator.Metadata.Parse.{Metadata, parsed, refused, metadata_parse}
use pg_oauth_validator.Metadata.Sound.{Discovered, metadata_parse-Discovered}
use pg_oauth_validator.Url.Parts.{CurlUrl}
use pg_oauth_validator.Base.{
  inl, inr, ◌⊎◌, true, false, none, some, ◌≡◌, Bytes, ℤ, refl, ℕ, Option, Bool-cases, pos, ◌&&◌,
  arith,
}

abbrev fst_of : RefreshResult × Refresh → RefreshResult
fst_of b = b.0

fresh_found : (f : LookupResult) → is_fresh f ≡ true → is_miss f ≡ false
fresh_found miss h = absurd (cc h)
fresh_found fresh h = refl
fresh_found stale h = refl

module _ (J : Jansson) (curl : CurlUrl) (getdate : Bytes → ℤ) (io : CacheIo) (web : Requests) where
  any_end :
      {A : Type 0} (x : Context J io × (IssuerKeyError ⊎ A))
      → Ends J io (λ a d. Unit {0}) (λ e d. Unit {0}) x
  any_end (c, inl e) = tt
  any_end (c, inr a) = tt

  module _ (p : IssuerKeyPolicy) (url issuer : Bytes) where
    module _ (q : CachePolicy) (key : Bytes)
        (built : build (some (metadata_key_policy q issuer url)) ≡ key_ok key)
        (c : Context J io) where
      abbrev size : ℕ
      size = cached_capacity p

      -- The document of the cached half, and the clock where it ends.
      abbrev pub Sourced : Origin → Context J io → Type 0
      Sourced o d = MetadataFrom io web J curl getdate p url issuer (some q) c (body_of o) d.now

      abbrev EndsSourced : Context J io × (IssuerKeyError ⊎ Origin) → Type 0
      EndsSourced x = Ends J io Sourced (λ e d. Unit {0}) x

      abbrev begun_at : io.State × (RefreshResult × Refresh)
      begun_at = begun io c.cache c.now key false size false (pos 0) q.refresh_wait_timeout_ms

      abbrev waited_at : io.State × Wait
      waited_at = waited io c.cache c.now key false size false (pos 0) q.refresh_wait_timeout_ms

      fresh_copy-CopyAt :
          (s : io.State) (n : ℕ) (b : Bytes)
          → fresh_copy (io.lookup s key n false size).1 ≡ some b
          → CopyAt io s n key false size b true
      unfolding fresh_copy
      fresh_copy-CopyAt s n b h =
          let l = (io.lookup s key n false size).1 in
          elim (Bool-cases (is_fresh l.freshness && is_copied l.copy_result)) [
            | inr e ↦ absurd (cc (rw e at h))
            | inl e ↦ record {
              found = fresh_found l.freshness (ground (arith, e));
              fresh_is = ground (arith, e);
              copied = ground (arith, e);
              output_is = cc (rw e at h);
            }
          ]

      metadata_requested_sourced :
          (r : Refresh) (g : Got)
          → begun_at.1.0 ≡ started
          → web.metadata_request url p.metadata_http ≡ g
          → EndsSourced (
              metadata_requested J curl getdate io web p q url key size r g
                (record c { cache = begun_at.0 }))
      unfolding metadata_requested set_http_error give_up complete_refresh
      metadata_requested_sourced r (got x) s h = (key, built, inr (inr (refl, s, x, h, refl)))
      metadata_requested_sourced r (not_got e) s h = tt

      metadata_copied_sourced :
          (o : Option Bytes) (d : Context J io)
          → ((b : Bytes)
              → o ≡ some b
              → CachedMetadata io web J curl getdate p url issuer q c key b d.now)
          → EndsSourced (metadata_copied J curl getdate io web p q url key size o d)
      unfolding metadata_copied
      metadata_copied_sourced none d h = tt
      metadata_copied_sourced (some b) d h = (key, built, h b refl)

      metadata_again : Unit {0} → Step J io Origin
      metadata_again u =
          then_do J io (look_up J io key false size)
            λ l. metadata_copied J curl getdate io web p q url key size (fresh_copy l)

      -- The context behind the wait.
      abbrev moved_on : Context J io
      moved_on = record c { cache = waited_at.0; now = c.now + waited_at.1.elapsed_ms }

      metadata_again_sourced :
          (u : Unit {0})
          → begun_at.1.0 ≡ in_progress
          → waited_at.1.result ≡ true
          → EndsSourced (metadata_again u moved_on)
      unfolding metadata_again look_up
      metadata_again_sourced u i w =
          let x = io.lookup moved_on.cache key moved_on.now false size in
          metadata_copied_sourced (fresh_copy x.1) (record moved_on { cache = x.0 })
            λ b h. inr (inl (refl, (i, w, fresh_copy-CopyAt moved_on.cache moved_on.now b h)))

      metadata_waited_sourced :
          begun_at.1.0 ≡ in_progress
          → EndsSourced (
              metadata_waited J curl getdate io web p q url key size waited_at.1
                (record c { cache = waited_at.0 }))
      unfolding metadata_waited metadata_again
      metadata_waited_sourced i =
          let d : Context J io = record c { cache = waited_at.0 } in
          let t = waited_at.1.elapsed_ms in
          elim (Bool-cases waited_at.1.result) [
            | inr e ↦ rw e tt
            | inl e ↦ rw e (
                continue-Ends J io (λ u x. x ≡ moved_on) Sourced (λ e x. Unit {0}) metadata_again
                  (advance J io t d) (advance-Ends J io t d)
                  λ u x m.
                    subst (λ (y : Context J io). EndsSourced (metadata_again u y)) (sym m)
                      (metadata_again_sourced u i e))
          ]

      metadata_begun_sourced :
          (b : RefreshResult × Refresh)
          → begun_at.1 ≡ b
          → EndsSourced (
              metadata_begun J curl getdate io web p q url key size b
                (record c { cache = begun_at.0 }))
      unfolding metadata_begun wait_refresh
      metadata_begun_sourced (started, r) h =
          metadata_requested_sourced r (web.metadata_request url p.metadata_http) (ap fst_of h) refl
      metadata_begun_sourced (in_progress, r) h =
          elim (Bool-cases (is_positive q.refresh_wait_timeout_ms)) [
            | inr e ↦ rw e tt
            | inl e ↦ rw e (metadata_waited_sourced (ap fst_of h))
          ]
      metadata_begun_sourced (suppressed, r) h = tt
      metadata_begun_sourced (capacity_full, r) h = tt
      metadata_begun_sourced (invalid_argument, r) h = tt

      metadata_found_sourced :
          (o : Option Bytes)
          → fresh_copy (io.lookup c.cache key c.now false size).1 ≡ o
          → EndsSourced (
              metadata_found J curl getdate io web p q url key size o
                (record c { cache = (io.lookup c.cache key c.now false size).0 }))
      unfolding metadata_found begin_refresh
      metadata_found_sourced (some b) h =
          (key, built, inl (refl, fresh_copy-CopyAt c.cache c.now b h))
      metadata_found_sourced none h = metadata_begun_sourced begun_at.1 refl

      pub cached_metadata_sourced :
          EndsSourced (cached_metadata J curl getdate io web p q url key (cached_capacity p) c)
      unfolding cached_metadata look_up
      cached_metadata_sourced =
          metadata_found_sourced (fresh_copy (io.lookup c.cache key c.now false size).1) refl

    pub metadata_direct_sourced :
        (g : Got) (c d : Context J io)
        → web.metadata_request url p.metadata_http ≡ g
        → Ends J io
            (λ o e. MetadataFrom io web J curl getdate p url issuer none c (body_of o) e.now)
            (λ e d. Unit {0})
            (metadata_direct J curl getdate io web g d)
    unfolding metadata_direct set_http_error
    metadata_direct_sourced (got r) c d h = (r, h, refl)
    metadata_direct_sourced (not_got e) c d h = tt

    complete_with_now :
        (r : Refresh) (grace : ℤ) (x : Response) (f : Result) (c : Context J io)
        → Ends J io
            (λ b d. d.now ≡ c.now)
            (λ e d. Unit {0})
            (complete_with J io getdate r grace x f c)
    unfolding complete_with complete_refresh give_up
    complete_with_now r grace x (ok f) c = refl
    complete_with_now r grace x bad_argument c = refl
    complete_with_now r grace x invalid_header c = refl

    stored_now :
        (n : ℕ) (b : Bool) (d : Context J io)
        → d.now ≡ n
        → Ends J io (λ u e. e.now ≡ n) (λ e d. Unit {0}) (stored_or_fail J curl getdate io web b d)
    unfolding stored_or_fail
    stored_now n true d h = h
    stored_now n false d h = tt

    -- The clock stands still while the document is stored.
    store_metadata_now :
        (q : Option CachePolicy) (time : ℤ) (o : Origin) (c : Context J io)
        → Ends J io
            (λ u d. d.now ≡ c.now)
            (λ e d. Unit {0})
            (store_metadata J curl getdate io web time q o c)
    unfolding store_metadata complete_response
    store_metadata_now none time (from_cache b) c = refl
    store_metadata_now none time (from_refresh r x) c = refl
    store_metadata_now none time (from_request x) c = refl
    store_metadata_now (some q) time (from_cache b) c = refl
    store_metadata_now (some q) time (from_request x) c = refl
    store_metadata_now (some q) time (from_refresh r x) c =
        let f = calculate getdate x.headers time (some q.metadata_freshness) in
        continue-Ends J io (λ b d. d.now ≡ c.now) (λ u d. d.now ≡ c.now) (λ e d. Unit {0})
          (stored_or_fail J curl getdate io web) (complete_with J io getdate r (pos 0) x f c)
          (complete_with_now r (pos 0) x f c) λ b d e. stored_now c.now b d e

    -- The address and the first host of the key set, where the first half ends.
    pub record Address (q : Option CachePolicy) (c : Context J io) (x : Bytes × Bytes)
        (d : Context J io) : Type 0 where
      pub metadata : Bytes
      pub metadata_from : MetadataFrom io web J curl getdate p url issuer q c metadata d.now
      pub discovered : Discovered J curl metadata issuer p.metadata x.0
      pub host_is :
          http_url_host curl
            (some url)
            p.metadata_http.max_url_size
            p.metadata_http.allow_insecure_http
          ≡ url_host_ok x.1

    metadata_host-Address :
        (q : Option CachePolicy) (b : Context J io) (metadata uri : Bytes) (u : UrlHost curl)
        (c : Context J io)
        → MetadataFrom io web J curl getdate p url issuer q b metadata c.now
        → Discovered J curl metadata issuer p.metadata uri
        → http_url_host curl
            (some url)
            p.metadata_http.max_url_size
            p.metadata_http.allow_insecure_http
          ≡ u
        → Ends J io
            (λ x d. Address q b x d)
            (λ e d. Unit {0})
            (metadata_host J curl getdate io web uri u c)
    unfolding metadata_host set_http_error
    metadata_host-Address q b metadata uri (url_host_ok host) c f d h = record {
      metadata = metadata;
      metadata_from = f;
      discovered = d;
      host_is = h;
    }
    metadata_host-Address q b metadata uri (url_host_failed e) c f d h = tt

    metadata_parsed-Address :
        (q : Option CachePolicy) (b : Context J io) (time : ℤ) (o : Origin) (m : Metadata)
        (c : Context J io)
        → MetadataFrom io web J curl getdate p url issuer q b (body_of o) c.now
        → metadata_parse J curl (some (body_of o)) (some issuer) (some p.metadata) ≡ m
        → Ends J io
            (λ x d. Address q b x d)
            (λ e d. Unit {0})
            (metadata_parsed J curl getdate io web p q time url o m c)
    unfolding metadata_parsed set_metadata_error
    metadata_parsed-Address q b time o (refused e) c f h =
        continue-Ends J io (λ u d. Unit {0}) (λ x d. Address q b x d) (λ e d. Unit {0})
          (λ v. fail_with J io metadata_invalid)
          (drop_origin J curl getdate io web o (record c { metadata_error = some e }))
          (any_end (drop_origin J curl getdate io web o (record c { metadata_error = some e })))
          λ u d i. tt
    metadata_parsed-Address q b time o (parsed uri) c f h =
        let u =
          http_url_host curl (some url) p.metadata_http.max_url_size
            p.metadata_http.allow_insecure_http in
        let c' : Context J io = record c { metadata_error = none } in
        continue-Ends J io (λ u d. d.now ≡ c.now) (λ x d. Address q b x d) (λ e d. Unit {0})
          (λ v. metadata_host J curl getdate io web uri u)
          (store_metadata J curl getdate io web time q o c') (store_metadata_now q time o c')
          λ v d i.
            metadata_host-Address q b (body_of o) uri u d
              (subst (MetadataFrom io web J curl getdate p url issuer q b (body_of o)) (sym i) f)
              (metadata_parse-Discovered J curl (body_of o) issuer p.metadata h) refl

    pub use_metadata-Address :
        (q : Option CachePolicy) (b : Context J io) (time : ℤ) (o : Origin) (c : Context J io)
        → MetadataFrom io web J curl getdate p url issuer q b (body_of o) c.now
        → Ends J io
            (λ x d. Address q b x d)
            (λ e d. Unit {0})
            (use_metadata J curl getdate io web p q time url issuer o c)
    unfolding use_metadata
    use_metadata-Address q b time o c f =
        metadata_parsed-Address q b time o
          (metadata_parse J curl (some (body_of o)) (some issuer) (some p.metadata)) c f refl
