-- ===== src/IssuerKey/ReleasedKeys.antt =====
-- Every refresh that a fetch starts, it completes: the key set, and the fetch as a whole.
use pg_oauth_validator.SharedCache.Operations.{Wait, IoLookup}
use pg_oauth_validator.IssuerKey.Released.{
  Held, cached_metadata_held, stored_or_fail_idle, Matches, use_metadata_idle,
}
use pg_oauth_validator.CacheKey.Build.{
  KeyResult, key_ok, key_invalid_argument, key_too_large, build,
}
use pg_oauth_validator.CacheState.Types.{
  RefreshResult, started, in_progress, suppressed, capacity_full, invalid_argument, Refresh,
  max_payload_size,
}
use pg_oauth_validator.HttpTransport.Request.{HttpPolicy}
use pg_oauth_validator.HttpTransport.Transfer.{Response, Got, got, not_got}
use pg_oauth_validator.IssuerKey.Context.{
  IssuerKeyError, cache_failed, jwks_http_failed, jwks_invalid, CachePolicy, IssuerKeyPolicy,
  Context, Step, fail_with, then_do, continue, give_up, complete_response, set_selected,
  clear_selected, set_http_error, look_up, begin_refresh, wait_refresh, advance, is_positive,
  cache_policy_valid,
}
use pg_oauth_validator.IssuerKey.Documents.{
  Origin, cached_metadata, metadata_direct, use_metadata, stored_or_fail,
}
use pg_oauth_validator.IssuerKey.Fetch.{
  direct_rest, direct_fetch, keys_under, cached_rest, metadata_under, cached_fetch, fetch_with,
  fetch_cached, cached_capacity, jwks_policy_for, metadata_key_policy, jwks_key_policy,
}
use pg_oauth_validator.SharedCache.Io.{CacheIo}
use pg_oauth_validator.IssuerKey.Io.{Requests}
use pg_oauth_validator.IssuerKey.Keys.{
  Copied, no_copy, copied_key, copied_none, copied_keys, direct_selected, direct_keys,
  refreshed_selected, stale_or_fail, refreshed_keys, waited_keys, after_wait, keys_begun,
  refresh_keys, found_keys, cached_keys, select_in, is_key_not_found,
}
use pg_oauth_validator.IssuerKey.Protocol.{
  Protocol, IdleAt, EndsIdle, continue-EndsIdle, give_up_idle, complete_response_idle, Begun,
  begin_refresh-Ends, look_up_idle, wait_refresh_idle, advance_idle,
}
use pg_oauth_validator.IssuerKey.Rules.{Ends, continue-Ends}
use pg_oauth_validator.Jwks.Keys.{OpenSsl}
use pg_oauth_validator.Jwks.Select.{Selection, selected, unselected}
use pg_oauth_validator.Json.{Jansson}
use pg_oauth_validator.Url.Parts.{CurlUrl}
use pg_oauth_validator.Base.{
  inl, inr, true, false, none, some, Bytes, ℤ, ℕ, Bool, Bool-cases, not, ◌&&◌, ◌==◌, Option, ◌||◌,
  ltb,
}

module _ (J : Jansson) (ssl : OpenSsl) (curl : CurlUrl) (getdate : Bytes → ℤ) (io : CacheIo)
    (web : Requests) (P : Protocol io) where
  module _ (p : IssuerKeyPolicy) (key_id : Bytes) (algorithm : ℕ) where
    direct_selected_idle :
        (s : Selection J ssl) (c : Context J io)
        → IdleAt J io P c
        → EndsIdle J io P (direct_selected J ssl curl getdate io web p key_id algorithm s c)
    unfolding direct_selected set_selected
    direct_selected_idle (selected k a) c h = h
    direct_selected_idle (unselected e) c h = h

    direct_keys_idle :
        (g : Got) (c : Context J io)
        → IdleAt J io P c
        → EndsIdle J io P (direct_keys J ssl curl getdate io web p key_id algorithm g c)
    unfolding direct_keys set_http_error
    direct_keys_idle (not_got e) c h = h
    direct_keys_idle (got r) c h =
        direct_selected_idle (select_in J ssl curl getdate io web p key_id algorithm r.body)
          (record c { http_error = none }) h

    module _ (q : CachePolicy) (time : ℤ) (key : Bytes) (size : ℕ) where
      give_up_then :
          (r : Refresh) (e : IssuerKeyError) (c : Context J io)
          → P.Open r c.cache
          → EndsIdle J io P
              (continue J io (λ v. fail_with J io {A = Unit {0}} e) (give_up J io r c))
      give_up_then r e c h =
          continue-EndsIdle J io P (λ v. fail_with J io e) (give_up J io r c)
            (give_up_idle J io P r c h) λ a c' i. i

      refreshed_selected_idle :
          (r : Refresh) (x : Response) (s : Selection J ssl) (c : Context J io)
          → P.Open r c.cache
          → EndsIdle J io P (
              refreshed_selected J ssl curl getdate io web p key_id algorithm q time key size r x s
                c)
      unfolding refreshed_selected set_selected
      refreshed_selected_idle r x (unselected e) c h =
          give_up_then r jwks_invalid (record c { jwks_error = some e; selected = none }) h
      refreshed_selected_idle r x (selected k a) c h =
          let c' : Context J io = record c { jwks_error = none; selected = some (k, a) } in
          continue-EndsIdle J io P (stored_or_fail J curl getdate io web)
            (complete_response J io getdate r time q.jwks_freshness q.jwks_stale_grace_ms x c')
            (complete_response_idle J io P getdate r time q.jwks_freshness q.jwks_stale_grace_ms x
              c' h)
            λ b d i. stored_or_fail_idle J curl getdate io web P b d i

      stale_or_fail_idle :
          (b : Bool) (e : IssuerKeyError) (c : Context J io)
          → IdleAt J io P c
          → EndsIdle J io P
              (stale_or_fail J ssl curl getdate io web p key_id algorithm q time key size b e c)
      unfolding stale_or_fail
      stale_or_fail_idle true e c h = h
      stale_or_fail_idle false e c h = h

      refreshed_keys_idle :
          (b : Bool) (r : Refresh) (g : Got) (c : Context J io)
          → P.Open r c.cache
          → EndsIdle J io P
              (refreshed_keys J ssl curl getdate io web p key_id algorithm q time key size b r g c)
      unfolding refreshed_keys set_http_error clear_selected
      refreshed_keys_idle b r (not_got e) c h =
          let c' : Context J io = record c { http_error = some e } in
          continue-EndsIdle J io P
            (λ v.
              stale_or_fail J ssl curl getdate io web p key_id algorithm q time key size b
                jwks_http_failed)
            (give_up J io r c') (give_up_idle J io P r c' h)
            λ a d i. stale_or_fail_idle b jwks_http_failed d i
      refreshed_keys_idle true r (got x) c h =
          refreshed_selected_idle r x
            (select_in J ssl curl getdate io web p key_id algorithm x.body)
            (record c { http_error = none; selected = none }) h
      refreshed_keys_idle false r (got x) c h =
          refreshed_selected_idle r x
            (select_in J ssl curl getdate io web p key_id algorithm x.body)
            (record c { http_error = none }) h

      waited_keys_idle :
          (d : Copied J ssl curl getdate io web) (c : Context J io)
          → IdleAt J io P c
          → EndsIdle J io P
              (waited_keys J ssl curl getdate io web p key_id algorithm q time key size d c)
      unfolding waited_keys set_selected
      waited_keys_idle no_copy c h = h
      waited_keys_idle (copied_key f k a) c h = h
      waited_keys_idle (copied_none e) c h = h

      after_wait_idle :
          (w : Wait) (c : Context J io)
          → IdleAt J io P c
          → EndsIdle J io P
              (after_wait J ssl curl getdate io web p key_id algorithm q time key size w c)
      unfolding after_wait
      after_wait_idle w c h =
          let grace = is_positive q.jwks_stale_grace_ms in
          let keys : IoLookup → Step J io (Unit {0}) = λ l.
            waited_keys J ssl curl getdate io web p key_id algorithm q time key size
              (copied_keys J ssl curl getdate io web p key_id algorithm l) in
          let again : Unit {0} → Step J io (Unit {0}) =
            λ u. then_do J io (look_up J io key grace size) keys in
          elim (Bool-cases (not w.result)) [
            | inl e ↦ rw e h
            | inr e ↦ rw e (
                continue-EndsIdle J io P again (advance J io w.elapsed_ms c)
                  (advance_idle J io P w.elapsed_ms c h)
                  λ a c' i.
                    continue-EndsIdle J io P keys (look_up J io key grace size c')
                      (look_up_idle J io P key grace size c' i)
                      λ l d j.
                        waited_keys_idle
                          (copied_keys J ssl curl getdate io web p key_id algorithm l) d j)
          ]

      keys_begun_idle :
          (uri : Bytes) (http : HttpPolicy) (b : Bool) (x : RefreshResult × Refresh)
          (c : Context J io)
          → Begun J io P x c
          → EndsIdle J io P (
              keys_begun J ssl curl getdate io web p key_id algorithm q time key size uri http b x
                c)
      unfolding keys_begun
      keys_begun_idle uri http b (started, r) c h =
          refreshed_keys_idle b r (web.jwks_request uri http) c h
      keys_begun_idle uri http b (in_progress, r) c h =
          elim (Bool-cases (not b && is_positive q.refresh_wait_timeout_ms)) [
            | inr e ↦ rw e (stale_or_fail_idle b cache_failed c h)
            | inl e ↦ rw e (
                continue-EndsIdle J io P
                  (after_wait J ssl curl getdate io web p key_id algorithm q time key size)
                  (wait_refresh J io key q.refresh_wait_timeout_ms c)
                  (wait_refresh_idle J io P key q.refresh_wait_timeout_ms c h)
                  λ w c' i. after_wait_idle w c' i)
          ]
      keys_begun_idle uri http b (suppressed, r) c h = stale_or_fail_idle b cache_failed c h
      keys_begun_idle uri http b (capacity_full, r) c h = stale_or_fail_idle b cache_failed c h
      keys_begun_idle uri http b (invalid_argument, r) c h = stale_or_fail_idle b cache_failed c h

      refresh_keys_idle :
          (uri : Bytes) (http : HttpPolicy) (u b : Bool) (c : Context J io)
          → IdleAt J io P c
          → EndsIdle J io P (
              refresh_keys J ssl curl getdate io web p key_id algorithm q time key size uri http u b
                c)
      unfolding refresh_keys
      refresh_keys_idle uri http u b c h =
          continue-Ends J io (Begun J io P) (λ a d. IdleAt J io P d) (λ e d. IdleAt J io P d)
            (keys_begun J ssl curl getdate io web p key_id algorithm q time key size uri http b)
            (begin_refresh J io key u q.unknown_kid_refresh_cooldown_ms c)
            (begin_refresh-Ends J io P key u q.unknown_kid_refresh_cooldown_ms c h)
            λ x d i. keys_begun_idle uri http b x d i

      found_keys_idle :
          (uri : Bytes) (http : HttpPolicy) (d : Copied J ssl curl getdate io web)
          (c : Context J io)
          → IdleAt J io P c
          → EndsIdle J io P
              (found_keys J ssl curl getdate io web p key_id algorithm q time key size uri http d c)
      unfolding found_keys set_selected
      found_keys_idle uri http no_copy c h = refresh_keys_idle uri http false false c h
      found_keys_idle uri http (copied_key true k a) c h = h
      found_keys_idle uri http (copied_key false k a) c h =
          refresh_keys_idle uri http false true
            (record c { jwks_error = none; selected = some (k, a) }) h
      found_keys_idle uri http (copied_none e) c h = elim (Bool-cases (is_key_not_found e)) [
        | inl f ↦ rw f (
            refresh_keys_idle uri http true false
              (record c { jwks_error = some e; selected = none }) h)
        | inr f ↦ rw f h
      ]

      pub cached_keys_idle :
          (uri : Bytes) (http : HttpPolicy) (c : Context J io)
          → IdleAt J io P c
          → EndsIdle J io P
              (cached_keys J ssl curl getdate io web p key_id algorithm q time key size uri http c)
      unfolding cached_keys
      cached_keys_idle uri http c h =
          let grace = is_positive q.jwks_stale_grace_ms in
          let found : IoLookup → Step J io (Unit {0}) = λ l.
            found_keys J ssl curl getdate io web p key_id algorithm q time key size uri http
              (copied_keys J ssl curl getdate io web p key_id algorithm l) in
          continue-EndsIdle J io P found (look_up J io key grace size c)
            (look_up_idle J io P key grace size c h)
            λ l d i.
              found_keys_idle uri http (copied_keys J ssl curl getdate io web p key_id algorithm l)
                d i

  module _ (p : IssuerKeyPolicy) (time : ℤ) (url issuer key_id : Bytes) (algorithm : ℕ) where
    direct_rest_idle :
        (x : Bytes × Bytes) (c : Context J io)
        → IdleAt J io P c
        → EndsIdle J io P
            (direct_rest J ssl curl getdate io web p time url issuer key_id algorithm x c)
    unfolding direct_rest
    direct_rest_idle (uri, host) c h =
        direct_keys_idle p key_id algorithm (web.jwks_request uri (jwks_policy_for p host)) c h

    metadata_direct-Matches :
        (g : Got) (c : Context J io)
        → IdleAt J io P c
        → Ends J io
            (λ o d. Matches J curl getdate io web P none o d)
            (λ e d. IdleAt J io P d)
            (metadata_direct J curl getdate io web g c)
    unfolding metadata_direct set_http_error
    metadata_direct-Matches (got x) c h = h
    metadata_direct-Matches (not_got e) c h = h

    direct_fetch_idle :
        (c : Context J io)
        → IdleAt J io P c
        → EndsIdle J io P
            (direct_fetch J ssl curl getdate io web p time url issuer key_id algorithm c)
    unfolding direct_fetch
    direct_fetch_idle c h =
        let g = web.metadata_request url p.metadata_http in
        let rest = direct_rest J ssl curl getdate io web p time url issuer key_id algorithm in
        let next : Origin → Step J io (Unit {0}) =
          λ o. then_do J io (use_metadata J curl getdate io web p none time url issuer o) rest in
        continue-Ends J io (λ o d. Matches J curl getdate io web P none o d)
          (λ a d. IdleAt J io P d) (λ e d. IdleAt J io P d) next
          (metadata_direct J curl getdate io web g c) (metadata_direct-Matches g c h)
          λ o d i.
            continue-EndsIdle J io P rest
              (use_metadata J curl getdate io web p none time url issuer o d)
              (use_metadata_idle J curl getdate io web P p none time url issuer o d i)
              λ x d' j. direct_rest_idle x d' j

    module _ (q : CachePolicy) where
      keys_under_idle :
          (x : Bytes × Bytes) (k : KeyResult) (c : Context J io)
          → IdleAt J io P c
          → EndsIdle J io P
              (keys_under J ssl curl getdate io web p time url issuer key_id algorithm q x k c)
      unfolding keys_under
      keys_under_idle (uri, host) (key_ok key) c h =
          cached_keys_idle p key_id algorithm q time key (cached_capacity p) uri
            (jwks_policy_for p host) c h
      keys_under_idle (uri, host) key_invalid_argument c h = h
      keys_under_idle (uri, host) key_too_large c h = h

      cached_rest_idle :
          (x : Bytes × Bytes) (c : Context J io)
          → IdleAt J io P c
          → EndsIdle J io P
              (cached_rest J ssl curl getdate io web p time url issuer key_id algorithm q x c)
      unfolding cached_rest
      cached_rest_idle (uri, host) c h =
          keys_under_idle (uri, host) (build (some (jwks_key_policy q issuer url uri))) c h

      metadata_under_idle :
          (k : KeyResult) (c : Context J io)
          → IdleAt J io P c
          → EndsIdle J io P
              (metadata_under J ssl curl getdate io web p time url issuer key_id algorithm q k c)
      unfolding metadata_under
      metadata_under_idle key_invalid_argument c h = h
      metadata_under_idle key_too_large c h = h
      metadata_under_idle (key_ok key) c h =
          let size = cached_capacity p in
          let rest = cached_rest J ssl curl getdate io web p time url issuer key_id algorithm q in
          let next : Origin → Step J io (Unit {0}) = λ o.
            then_do J io (use_metadata J curl getdate io web p (some q) time url issuer o) rest in
          continue-Ends J io (λ o d. Held J curl getdate io web P o d) (λ a d. IdleAt J io P d)
            (λ e d. IdleAt J io P d) next (cached_metadata J curl getdate io web p q url key size c)
            (cached_metadata_held J curl getdate io web P p q url key size c h)
            λ o d i.
              continue-EndsIdle J io P rest
                (use_metadata J curl getdate io web p (some q) time url issuer o d)
                (use_metadata_idle J curl getdate io web P p (some q) time url issuer o d i)
                λ x d' j. cached_rest_idle x d' j

      cached_fetch_idle :
          (c : Context J io)
          → IdleAt J io P c
          → EndsIdle J io P
              (cached_fetch J ssl curl getdate io web p time url issuer key_id algorithm q c)
      unfolding cached_fetch
      cached_fetch_idle c h =
          elim (Bool-cases (cached_capacity p == 0 || ltb max_payload_size (cached_capacity p))) [
            | inl e ↦ rw e h
            | inr e ↦
                rw e (metadata_under_idle (build (some (metadata_key_policy q issuer url))) c h)
          ]

  fetch_with_idle :
      (p : IssuerKeyPolicy) (time : ℤ) (url issuer key_id : Bytes) (algorithm : ℕ)
      (q : Option CachePolicy) (c : Context J io)
      → IdleAt J io P c
      → EndsIdle J io P
          (fetch_with J ssl curl getdate io web p time url issuer key_id algorithm q c)
  unfolding fetch_with
  fetch_with_idle p time url issuer key_id algorithm none c h =
      direct_fetch_idle p time url issuer key_id algorithm c h
  fetch_with_idle p time url issuer key_id algorithm (some q) c h =
      elim (Bool-cases (cache_policy_valid q)) [
        | inl e ↦ rw e (cached_fetch_idle p time url issuer key_id algorithm q c h)
        | inr e ↦ rw e h
      ]

  -- Whatever the arguments, the documents and the answers of the cache, no refresh is open behind a
  -- fetch that began with none open.
  pub fetch_cached_idle :
      (url issuer key_id : Option Bytes) (algorithm : ℕ) (p : Option IssuerKeyPolicy)
      (q : Option CachePolicy) (time : ℤ) (c : Context J io)
      → IdleAt J io P c
      → EndsIdle J io P
          (fetch_cached J ssl curl getdate io web url issuer key_id algorithm p q time c)
  unfolding fetch_cached
  fetch_cached_idle none issuer key_id algorithm p q time c h = h
  fetch_cached_idle (some url) none key_id algorithm p q time c h = h
  fetch_cached_idle (some url) (some issuer) none algorithm p q time c h = h
  fetch_cached_idle (some url) (some issuer) (some key_id) algorithm none q time c h = h
  fetch_cached_idle (some url) (some issuer) (some key_id) algorithm (some p) q time c h =
      elim (Bool-cases (algorithm == 0)) [
        | inl e ↦ rw e h
        | inr e ↦ rw e (fetch_with_idle p time url issuer key_id algorithm q c h)
      ]
