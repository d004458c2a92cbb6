-- ===== src/IssuerKey/Traced.antt =====
-- The starts and the completions of refreshes in a fetch, on any cache.
use pg_oauth_validator.CacheState.Types.{
  RefreshResult, started, in_progress, suppressed, capacity_full, invalid_argument, Refresh,
}
use pg_oauth_validator.IssuerKey.Context.{IssuerKeyError, CachePolicy, IssuerKeyPolicy, Context}
use pg_oauth_validator.IssuerKey.Fetch.{fetch_cached, new_context}
use pg_oauth_validator.SharedCache.Io.{CacheIo}
use pg_oauth_validator.IssuerKey.Io.{Requests}
use pg_oauth_validator.IssuerKey.Protocol.{Protocol, EndsIdle}
use pg_oauth_validator.IssuerKey.ReleasedKeys.{fetch_cached_idle}
use pg_oauth_validator.Jwks.Keys.{OpenSsl}
use pg_oauth_validator.Json.{Jansson}
use pg_oauth_validator.Url.Parts.{CurlUrl}
use pg_oauth_validator.Base.{inl, inr, ◌⊎◌, [], ◌∷◌, List, Bytes, ◌≡◌, ◌≢◌, ℤ, Option, refl, ℕ}

-- A refresh that was started, and one that was completed.
pub data Event : Type 0 where
  opened closed : Refresh → Event

abbrev pub note_begin : RefreshResult × Refresh → List Event → List Event
note_begin (started, r) t = opened r ∷ t
note_begin (in_progress, r) t = t
note_begin (suppressed, r) t = t
note_begin (capacity_full, r) t = t
note_begin (invalid_argument, r) t = t

-- The trace, the newest event first: each start is followed by its completion, and by nothing else
-- before that.
abbrev pub Settled : List Event → Type 0
Settled [] = Unit {0}
Settled (opened r ∷ t) = ⊥
Settled (closed r ∷ []) = ⊥
Settled (closed r ∷ closed r' ∷ t) = ⊥
Settled (closed r ∷ opened r' ∷ t) = (r ≡ r') × Settled t

-- The last event is the start of the refresh.
abbrev pub Started : Refresh → List Event → Type 0
Started r [] = ⊥
Started r (closed r' ∷ t) = ⊥
Started r (opened r' ∷ t) = (r ≡ r') × Settled t

-- The cache with the trace of its refreshes.
abbrev pub traced : CacheIo → CacheIo
traced io = record {
  State = io.State × List Event;
  lookup = λ s k n allow size. let x = io.lookup s.0 k n allow size in ((x.0, s.1), x.1);
  begin_refresh =
      λ s k n u m. let x = io.begin_refresh s.0 k n u m in ((x.0, note_begin x.1 s.1), x.1);
  wait_refresh = λ s k t. let x = io.wait_refresh s.0 k t in ((x.0, s.1), x.1);
  complete_refresh =
      λ s r n o. let x = io.complete_refresh s.0 r n o in ((x.0, closed r ∷ s.1), x.1);
}

note_begin-Started :
    (x : RefreshResult × Refresh) (t : List Event)
    → Settled t
    → x.0 ≡ started
    → Started x.1 (note_begin x t)
note_begin-Started (started, r) t h e = (refl, h)
note_begin-Started (in_progress, r) t h e = absurd (cc e)
note_begin-Started (suppressed, r) t h e = absurd (cc e)
note_begin-Started (capacity_full, r) t h e = absurd (cc e)
note_begin-Started (invalid_argument, r) t h e = absurd (cc e)

note_begin-Settled :
    (x : RefreshResult × Refresh) (t : List Event)
    → Settled t
    → x.0 ≢ started
    → Settled (note_begin x t)
note_begin-Settled (started, r) t h e = absurd (e refl)
note_begin-Settled (in_progress, r) t h e = h
note_begin-Settled (suppressed, r) t h e = h
note_begin-Settled (capacity_full, r) t h e = h
note_begin-Settled (invalid_argument, r) t h e = h

closed-Settled : (r : Refresh) (t : List Event) → Started r t → Settled (closed r ∷ t)
closed-Settled r [] h = absurd h
closed-Settled r (closed r' ∷ t) h = absurd h
closed-Settled r (opened r' ∷ t) h = h

module _ (io : CacheIo) where
  traced_protocol : Protocol (traced io)
  traced_protocol = record {
    Idle = λ s. Settled s.1;
    Open = λ r s. Started r s.1;
    lookup_idle = λ s k n allow size h. h;
    wait_idle = λ s k t h. h;
    begin_opens = λ s k n u m h e. note_begin-Started (io.begin_refresh s.0 k n u m).1 s.1 h e;
    begin_idle = λ s k n u m h e. note_begin-Settled (io.begin_refresh s.0 k n u m).1 s.1 h e;
    complete_idle = λ s r n o h. closed-Settled r s.1 h;
  }

  module _ (J : Jansson) where
    idle_end :
        {A : Type 0} (x : Context J (traced io) × (IssuerKeyError ⊎ A))
        → EndsIdle J (traced io) traced_protocol x
        → Settled x.0.cache.1
    unfolding traced_protocol
    idle_end (c, inl e) h = h
    idle_end (c, inr a) h = h

    -- On any cache, whatever it answers, whatever the provider sends and however the fetch ends: each
    -- refresh that the fetch starts is completed before anything else is started or completed, and
    -- nothing is completed that it has not started.
    pub fetch_cached-Settled :
        (ssl : OpenSsl) (curl : CurlUrl) (getdate : Bytes → ℤ) (web : Requests)
        (url issuer key_id : Option Bytes) (algorithm : ℕ) (p : Option IssuerKeyPolicy)
        (q : Option CachePolicy) (time : ℤ) (s : io.State) (now : ℕ)
        → Settled
            (fetch_cached J ssl curl getdate
              (traced io)
              web
              url
              issuer
              key_id
              algorithm
              p
              q
              time
              (new_context J ssl curl getdate (traced io) web (s, []) now)).0.cache.1
    fetch_cached-Settled ssl curl getdate web url issuer key_id algorithm p q time s now =
        let c : Context J (traced io) =
          new_context J ssl curl getdate (traced io) web (s, []) now in
        idle_end
          (fetch_cached J ssl curl getdate (traced io) web url issuer key_id algorithm p q time c)
          (fetch_cached_idle J ssl curl getdate (traced io) web traced_protocol url issuer key_id
            algorithm p q time c (unfold traced_protocol in tt))
