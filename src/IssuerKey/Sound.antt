-- ===== src/IssuerKey/Sound.antt =====
-- What a fetch that ends well has done.
use pg_oauth_validator.CacheKey.Build.{
  KeyResult, key_ok, key_invalid_argument, key_too_large, build,
}
use pg_oauth_validator.CacheState.Types.{max_payload_size}
use pg_oauth_validator.IssuerKey.Context.{
  IssuerKeyError, CachePolicy, IssuerKeyPolicy, Context, Step, then_do, cache_policy_valid,
}
use pg_oauth_validator.IssuerKey.Documents.{
  Origin, body_of, cached_metadata, metadata_direct, use_metadata,
}
use pg_oauth_validator.IssuerKey.Fetch.{
  direct_rest, direct_fetch, keys_under, cached_rest, metadata_under, cached_fetch, fetch_with,
  fetch_cached, cached_capacity, jwks_policy_for, metadata_key_policy, jwks_key_policy,
}
use pg_oauth_validator.SharedCache.Io.{CacheIo}
use pg_oauth_validator.IssuerKey.Io.{Requests}
use pg_oauth_validator.IssuerKey.Provenance.{
  MetadataFrom, KeysFrom, KeysReceived, Trusted, FirstHalf,
}
use pg_oauth_validator.IssuerKey.Rules.{Ends, continue-Ends, continue_known-Ends}
use pg_oauth_validator.IssuerKey.Selected.{Has, AnyKeys, direct_keys_has, cached_keys_has}
use pg_oauth_validator.Jwks.Keys.{OpenSsl}
use pg_oauth_validator.Jwks.Sound.{jwks_select-Chosen}
use pg_oauth_validator.Json.{Jansson}
use pg_oauth_validator.Url.Parts.{CurlUrl}
use pg_oauth_validator.IssuerKey.Sources.{
  Address, cached_metadata_sourced, metadata_direct_sourced, use_metadata-Address,
}
use pg_oauth_validator.Base.{
  inl, inr, ◌⊎◌, none, some, ◌≡◌, Bytes, ℤ, refl, ℕ, Option, Bool-cases, ◌==◌, ◌||◌, ltb,
}

module _ (J : Jansson) (ssl : OpenSsl) (curl : CurlUrl) (getdate : Bytes → ℤ) (io : CacheIo)
    (web : Requests) where
  -- The result of a fetch that starts in the first context holds a trusted key.
  pub record Fetched (p : IssuerKeyPolicy) (q : Option CachePolicy) (time : ℤ)
      (url issuer key_id : Bytes) (algorithm : ℕ) (start c : Context J io) : Type 0 where
    pub key : J.Json
    pub found : ℕ
    pub result_is : c.selected ≡ some (key, found)
    pub trusted :
        Trusted io web J curl getdate p url issuer ssl q time start key_id algorithm key found

  module _ (p : IssuerKeyPolicy) (time : ℤ) (url issuer key_id : Bytes) (algorithm : ℕ)
      (start : Context J io) where
    abbrev EndsFetched : Option CachePolicy → Context J io × (IssuerKeyError ⊎ Unit {0}) → Type 0
    EndsFetched q x =
        Ends J io (λ u d. Fetched p q time url issuer key_id algorithm start d) (λ e d. Unit {0}) x

    abbrev AddressAt : Option CachePolicy → Bytes × Bytes → Context J io → Type 0
    AddressAt q x d = Address J curl getdate io web p url issuer q start x d

    abbrev MetadataAt : Option CachePolicy → Origin → Context J io → Type 0
    MetadataAt q o d = MetadataFrom io web J curl getdate p url issuer q start (body_of o) d.now

    abbrev Halfway : Option CachePolicy → Context J io → Bytes × Bytes → Type 0
    Halfway q d x = FirstHalf io web J curl getdate p url issuer q time start d x

    -- A key that was selected in a document of the address.
    Has-Fetched :
        (q : Option CachePolicy) (x : Bytes × Bytes) (d : Context J io) (From : Bytes → Type 0)
        (r : Context J io × (IssuerKeyError ⊎ Unit {0}))
        → AddressAt q x d
        → Halfway q d x
        → ((k : Bytes)
            → From k
            → KeysFrom io web J curl getdate p url issuer q d x.0 (jwks_policy_for p x.1) k)
        → Ends J io
            (λ u c. Has J ssl curl getdate io web p key_id algorithm From c)
            (λ e c. Unit {0})
            r
        → EndsFetched q r
    Has-Fetched q x d From (c, inl e) a w f h = tt
    Has-Fetched q x d From (c, inr u) a w f h = record {
      key = h.key;
      found = h.found;
      result_is = h.result_is;
      trusted = record {
        metadata = a.metadata;
        between = d;
        metadata_from = a.metadata_from;
        uri = x.0;
        discovered = a.discovered;
        host = x.1;
        host_is = a.host_is;
        first_half = w;
        keys = h.document;
        keys_from = f h.document h.from;
        chosen = jwks_select-Chosen J ssl h.document key_id algorithm p.jwks h.selected_is;
      };
    }

    direct_rest_fetched :
        (x : Bytes × Bytes) (c : Context J io)
        → AddressAt none x c
        → EndsFetched none
            (direct_rest J ssl curl getdate io web p time url issuer key_id algorithm x c)
    unfolding direct_rest
    direct_rest_fetched (uri, host) c a =
        let http = jwks_policy_for p host in
        Has-Fetched none (uri, host) c (KeysReceived io web uri http) _ a tt (λ d f. f)
          (direct_keys_has J ssl curl getdate io web p key_id algorithm uri http
            (web.jwks_request uri http) c refl)

    direct_fetch_fetched :
        (c : Context J io)
        → EndsFetched none
            (direct_fetch J ssl curl getdate io web p time url issuer key_id algorithm c)
    unfolding direct_fetch
    direct_fetch_fetched c =
        let g = web.metadata_request url p.metadata_http in
        let rest = direct_rest J ssl curl getdate io web p time url issuer key_id algorithm in
        let next : Origin → Step J io (Unit {0}) =
          λ o. then_do J io (use_metadata J curl getdate io web p none time url issuer o) rest in
        continue-Ends J io (λ o d. MetadataAt none o d)
          (λ u d. Fetched p none time url issuer key_id algorithm start d) (λ e d. Unit {0}) next
          (metadata_direct J curl getdate io web g c)
          (metadata_direct_sourced J curl getdate io web p url issuer g start c refl)
          λ o d i.
            continue-Ends J io (λ x d. AddressAt none x d)
              (λ u d. Fetched p none time url issuer key_id algorithm start d) (λ e d. Unit {0})
              rest (use_metadata J curl getdate io web p none time url issuer o d)
              (use_metadata-Address J curl getdate io web p url issuer none start time o d i)
              λ x d' a. direct_rest_fetched x d' a

    module _ (q : CachePolicy) where
      keys_under_fetched :
          (x : Bytes × Bytes) (k : KeyResult) (c : Context J io)
          → build (some (jwks_key_policy q issuer url x.0)) ≡ k
          → AddressAt (some q) x c
          → Halfway (some q) c x
          → EndsFetched
              (some q)
              (keys_under J ssl curl getdate io web p time url issuer key_id algorithm q x k c)
      unfolding keys_under
      keys_under_fetched (uri, host) key_invalid_argument c b a w = tt
      keys_under_fetched (uri, host) key_too_large c b a w = tt
      keys_under_fetched (uri, host) (key_ok key) c b a w =
          let http = jwks_policy_for p host in
          let From =
            AnyKeys J ssl curl getdate io web p key_id algorithm url issuer q time key uri http c in
          Has-Fetched (some q) (uri, host) c From _ a w (λ d f. (key, b, f))
            (cached_keys_has J ssl curl getdate io web p key_id algorithm url issuer q time key uri
              http c)

      cached_rest_fetched :
          (x : Bytes × Bytes) (c : Context J io)
          → AddressAt (some q) x c
          → Halfway (some q) c x
          → EndsFetched
              (some q)
              (cached_rest J ssl curl getdate io web p time url issuer key_id algorithm q x c)
      unfolding cached_rest
      cached_rest_fetched (uri, host) c a w =
          keys_under_fetched (uri, host) (build (some (jwks_key_policy q issuer url uri))) c refl a
            w

      metadata_under_fetched :
          (k : KeyResult)
          → build (some (metadata_key_policy q issuer url)) ≡ k
          → EndsFetched (some q) (
              metadata_under J ssl curl getdate io web p time url issuer key_id algorithm q k start)
      unfolding metadata_under
      metadata_under_fetched key_invalid_argument b = tt
      metadata_under_fetched key_too_large b = tt
      metadata_under_fetched (key_ok key) b =
          let size = cached_capacity p in
          let rest = cached_rest J ssl curl getdate io web p time url issuer key_id algorithm q in
          let next : Origin → Step J io (Unit {0}) = λ o.
            then_do J io (use_metadata J curl getdate io web p (some q) time url issuer o) rest in
          continue_known-Ends J io (λ o d. MetadataAt (some q) o d)
            (λ u d. Fetched p (some q) time url issuer key_id algorithm start d) (λ e d. Unit {0})
            next (cached_metadata J curl getdate io web p q url key size start)
            (cached_metadata_sourced J curl getdate io web p url issuer q key b start)
            λ o d read i.
              continue_known-Ends J io (λ x d. AddressAt (some q) x d)
                (λ u d. Fetched p (some q) time url issuer key_id algorithm start d)
                (λ e d. Unit {0}) rest
                (use_metadata J curl getdate io web p (some q) time url issuer o d)
                (use_metadata-Address J curl getdate io web p url issuer (some q) start time o d i)
                λ x d' used a. cached_rest_fetched x d' a (key, b, d, o, read, used)

      cached_fetch_fetched :
          EndsFetched
            (some q)
            (cached_fetch J ssl curl getdate io web p time url issuer key_id algorithm q start)
      unfolding cached_fetch
      cached_fetch_fetched =
          elim (Bool-cases (cached_capacity p == 0 || ltb max_payload_size (cached_capacity p))) [
            | inl e ↦ rw e tt
            | inr e ↦
                rw e (metadata_under_fetched (build (some (metadata_key_policy q issuer url))) refl)
          ]

  fetch_with-Fetched :
      (p : IssuerKeyPolicy) (time : ℤ) (url issuer key_id : Bytes) (algorithm : ℕ)
      (q : Option CachePolicy) (c : Context J io)
      → Ends J io
          (λ u d. Fetched p q time url issuer key_id algorithm c d)
          (λ e d. Unit {0})
          (fetch_with J ssl curl getdate io web p time url issuer key_id algorithm q c)
  unfolding fetch_with
  fetch_with-Fetched p time url issuer key_id algorithm none c =
      direct_fetch_fetched p time url issuer key_id algorithm c c
  fetch_with-Fetched p time url issuer key_id algorithm (some q) c =
      elim (Bool-cases (cache_policy_valid q)) [
        | inl e ↦ rw e (cached_fetch_fetched p time url issuer key_id algorithm c q)
        | inr e ↦ rw e tt
      ]

  ended_well :
      (p : IssuerKeyPolicy) (q : Option CachePolicy) (time : ℤ) (url issuer key_id : Bytes)
      (algorithm : ℕ) (start : Context J io) (x : Context J io × (IssuerKeyError ⊎ Unit {0}))
      → x.1 ≡ inr tt
      → Ends J io (λ u d. Fetched p q time url issuer key_id algorithm start d) (λ e d. Unit {0}) x
      → Fetched p q time url issuer key_id algorithm start x.0
  ended_well p q time url issuer key_id algorithm start (c, inl e) h f = absurd (cc h)
  ended_well p q time url issuer key_id algorithm start (c, inr u) h f = f

  -- A fetch that ends well returns a key, on any cache and with any answers of the provider. The key
  -- was chosen for the token's key id and algorithm from a key set at the address that the discovery
  -- document of the configured issuer gives, with the host of the discovery URL as the first allowed
  -- host. With no cache both documents are what the provider answered to a request. With a cache,
  -- the discovery document is a fresh copy that the first lookup finds, at the state and the time in
  -- which the fetch starts, under the key of the issuer and the discovery URL; or a fresh copy that
  -- the lookup right behind a wait for another backend finds, at the time that the wait has moved the
  -- clock to; or what the provider answered once this backend had started the refresh. The key set is
  -- read where the first half of the fetch ends, at its state and time: it is a fresh copy of the
  -- lookup, or a copy right behind a wait for another backend, or what the provider answered once
  -- this backend had started the refresh, or a stale copy of the lookup, but then the refresh that was
  -- asked for right behind it was not started or the request failed.
  pub fetch_cached-Trusted :
      (p : IssuerKeyPolicy) (time : ℤ) (url issuer key_id : Bytes) (algorithm : ℕ)
      (q : Option CachePolicy) (c : Context J io)
      → (fetch_cached J ssl curl getdate io web
          (some url)
          (some issuer)
          (some key_id)
          algorithm
          (some p)
          q
          time
          c).1
        ≡ inr tt
      → Fetched p q time url issuer key_id algorithm c
          (fetch_cached J ssl curl getdate io web
            (some url)
            (some issuer)
            (some key_id)
            algorithm
            (some p)
            q
            time
            c).0
  unfolding fetch_cached
  fetch_cached-Trusted p time url issuer key_id algorithm q c h =
      elim (Bool-cases (algorithm == 0)) [
        | inl e ↦ absurd (cc (rw e at h))
        | inr e ↦ rw e (
            ended_well p q time url issuer key_id algorithm c
              (fetch_with J ssl curl getdate io web p time url issuer key_id algorithm q c)
              (rw e at h) (fetch_with-Fetched p time url issuer key_id algorithm q c))
      ]
