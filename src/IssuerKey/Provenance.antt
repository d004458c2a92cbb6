-- ===== src/IssuerKey/Provenance.antt =====
-- Where the documents of a fetch come from.
use pg_oauth_validator.SharedCache.Operations.{Wait}
use pg_oauth_validator.CacheKey.Build.{key_ok, build}
use pg_oauth_validator.CacheState.Types.{started, RefreshResult, in_progress, Refresh}
use pg_oauth_validator.HttpTransport.Request.{HttpError, HttpPolicy, http_url_host, url_host_ok}
use pg_oauth_validator.HttpTransport.Transfer.{Response, got, not_got}
use pg_oauth_validator.IssuerKey.Context.{CachePolicy, IssuerKeyPolicy, Context, is_positive}
use pg_oauth_validator.IssuerKey.Documents.{
  is_copied, is_fresh, Origin, cached_metadata, use_metadata,
}
use pg_oauth_validator.IssuerKey.Fetch.{
  cached_capacity, jwks_policy_for, metadata_key_policy, jwks_key_policy,
}
use pg_oauth_validator.SharedCache.Io.{CacheIo}
use pg_oauth_validator.IssuerKey.Io.{Requests}
use pg_oauth_validator.IssuerKey.Keys.{is_miss}
use pg_oauth_validator.Jwks.Keys.{OpenSsl}
use pg_oauth_validator.Jwks.Sound.{Chosen}
use pg_oauth_validator.Json.{Jansson}
use pg_oauth_validator.Metadata.Sound.{Discovered}
use pg_oauth_validator.Url.Parts.{CurlUrl}
use pg_oauth_validator.Base.{
  ◌⊎◌, true, false, none, some, Bytes, Option, Bool, ℕ, ℤ, ◌≡◌, ◌≢◌, ◌+◌, pos, inr,
}

module _ (io : CacheIo) where
  -- A lookup at that state and time hands out a whole copy of the document, fresh or stale.
  pub record CopyAt (s : io.State) (now : ℕ) (key : Bytes) (allow : Bool) (size : ℕ)
      (document : Bytes) (fresh : Bool) : Type 0 where
    pub found : is_miss (io.lookup s key now allow size).1.freshness ≡ false
    pub fresh_is : is_fresh (io.lookup s key now allow size).1.freshness ≡ fresh
    pub copied : is_copied (io.lookup s key now allow size).1.copy_result ≡ true
    pub output_is : (io.lookup s key now allow size).1.output ≡ document

  -- The calls of one half of a fetch that starts at a state and a time: a lookup, then a begin, and
  -- then a wait.
  module _ (s : io.State) (n : ℕ) (key : Bytes) (allow : Bool) (size : ℕ) (unknown_kid : Bool)
      (cooldown timeout : ℤ) where
    abbrev pub begun : io.State × (RefreshResult × Refresh)
    begun = io.begin_refresh (io.lookup s key n allow size).0 key n unknown_kid cooldown

    abbrev pub waited : io.State × Wait
    waited = io.wait_refresh begun.0 key timeout

    -- Another backend refreshes the key, the wait for it says that it has ended, and a second lookup
    -- right behind the wait hands out a copy, fresh or stale: the clock has moved on by the time that
    -- the wait took.
    abbrev pub CopiedBehind : Bytes → Bool → Type 0
    CopiedBehind document fresh =
        (begun.1.0 ≡ in_progress)
        × (waited.1.result ≡ true)
        × CopyAt waited.0 (n + waited.1.elapsed_ms) key allow size document fresh

  module _ (web : Requests) where
    abbrev pub KeysReceived : Bytes → HttpPolicy → Bytes → Type 0
    KeysReceived uri http document =
        (r : Response) × (web.jwks_request uri http ≡ got r) × (r.body ≡ document)

    module _ (J : Jansson) (curl : CurlUrl) (getdate : Bytes → ℤ) (p : IssuerKeyPolicy)
        (url issuer : Bytes) where
      -- The discovery document of a fetch that starts in the context, and the time at which the
      -- fetch has it. It is a fresh copy of the first lookup; or a fresh copy behind a wait; or what
      -- the provider sent to the backend that has started the refresh.
      abbrev pub CachedMetadata : CachePolicy → Context J io → (key document : Bytes) → ℕ → Type 0
      CachedMetadata q c key document now =
          ((now ≡ c.now) × CopyAt c.cache c.now key false (cached_capacity p) document true)
          ⊎ ((now
                ≡ c.now
                  + (waited c.cache c.now key false (cached_capacity p) false (pos 0)
                      q.refresh_wait_timeout_ms).1.elapsed_ms)
              × CopiedBehind c.cache c.now key false (cached_capacity p) false (pos 0)
                  q.refresh_wait_timeout_ms document true)
          ⊎ ((now ≡ c.now)
              × ((begun c.cache c.now key false (cached_capacity p) false (pos 0)
                    q.refresh_wait_timeout_ms).1.0
                  ≡ started)
              × (r : Response) × (web.metadata_request url p.metadata_http ≡ got r)
              × (r.body ≡ document))

      abbrev pub MetadataFrom : Option CachePolicy → Context J io → Bytes → ℕ → Type 0
      MetadataFrom none c document now =
          (r : Response) × (web.metadata_request url p.metadata_http ≡ got r) × (r.body ≡ document)
      MetadataFrom (some q) c document now =
          (key : Bytes) × (build (some (metadata_key_policy q issuer url)) ≡ key_ok key)
          × CachedMetadata q c key document now

      -- The second half of a cached fetch starts where the first half ends.
      abbrev pub FirstHalf :
          Option CachePolicy → ℤ → Context J io → Context J io → Bytes × Bytes → Type 0
      FirstHalf none time c d x = Unit {0}
      FirstHalf (some q) time c d x =
          (key : Bytes) × (build (some (metadata_key_policy q issuer url)) ≡ key_ok key)
          × (e : Context J io) × (o : Origin) × (cached_metadata J curl getdate io web p q url key
                (cached_capacity p) c
              ≡ (e, inr o))
          × (use_metadata J curl getdate io web p (some q) time url issuer o e ≡ (d, inr x))

      -- The key set of a fetch whose second half starts in the context. It is a fresh copy of the
      -- lookup; or a copy behind a wait for another backend; or a stale copy of the lookup, but then
      -- the refresh right behind it was not started, or the request for a new document failed; or
      -- what the provider sent to the backend that has started the refresh.
      module _ (q : CachePolicy) (c : Context J io) (key uri : Bytes) (http : HttpPolicy) where
        abbrev pub keys_begun_at : Bool → io.State × (RefreshResult × Refresh)
        keys_begun_at unknown_kid =
            begun c.cache c.now key (is_positive q.jwks_stale_grace_ms) (cached_capacity p)
              unknown_kid q.unknown_kid_refresh_cooldown_ms q.refresh_wait_timeout_ms

        -- No new document was to be had.
        abbrev pub Unrefreshed : Type 0
        Unrefreshed =
            ((keys_begun_at false).1.0 ≢ started)
            ⊎ (((keys_begun_at false).1.0 ≡ started)
                × (e : HttpError) × (web.jwks_request uri http ≡ not_got e))

        abbrev pub CopyOfKeys : Bytes → Bool → Type 0
        CopyOfKeys document fresh =
            CopyAt c.cache c.now key (is_positive q.jwks_stale_grace_ms) (cached_capacity p)
              document fresh

        abbrev pub KeysBehind : Bytes → Type 0
        KeysBehind document =
            (u : Bool) × (f : Bool) × CopiedBehind c.cache c.now key
              (is_positive q.jwks_stale_grace_ms) (cached_capacity p) u
              q.unknown_kid_refresh_cooldown_ms q.refresh_wait_timeout_ms document f

        abbrev pub CachedKeys : Bytes → Type 0
        CachedKeys document =
            CopyOfKeys document true
            ⊎ KeysBehind document
            ⊎ (CopyOfKeys document false × Unrefreshed)
            ⊎ ((u : Bool) × ((keys_begun_at u).1.0 ≡ started) × KeysReceived uri http document)

      abbrev pub KeysFrom : Option CachePolicy → Context J io → Bytes → HttpPolicy → Bytes → Type 0
      KeysFrom none c uri http document = KeysReceived uri http document
      KeysFrom (some q) c uri http document =
          (key : Bytes) × (build (some (jwks_key_policy q issuer url uri)) ≡ key_ok key)
          × CachedKeys q c key uri http document

      module _ (ssl : OpenSsl) where
        -- The key was chosen from a key set of the provider, whose address the provider's discovery
        -- document gives. The first context is the one in which the fetch starts; the second half
        -- starts in `between`.
        pub record Trusted (q : Option CachePolicy) (time : ℤ) (c : Context J io) (key_id : Bytes)
            (algorithm : ℕ) (key : J.Json) (a : ℕ) : Type 0 where
          pub metadata : Bytes
          pub between : Context J io
          pub metadata_from : MetadataFrom q c metadata between.now
          pub uri : Bytes
          pub discovered : Discovered J curl metadata issuer p.metadata uri
          pub host : Bytes
          pub host_is :
              http_url_host curl
                (some url)
                p.metadata_http.max_url_size
                p.metadata_http.allow_insecure_http
              ≡ url_host_ok host
          pub first_half : FirstHalf q time c between (uri, host)
          pub keys : Bytes
          pub keys_from : KeysFrom q between uri (jwks_policy_for p host) keys
          pub chosen : Chosen J ssl keys key_id p.jwks algorithm key a
