-- ===== src/IssuerKey/Selected.antt =====
-- What a key that the second half of a fetch returns has been selected from.
use pg_oauth_validator.SharedCache.Operations.{IoLookup, Wait}
use pg_oauth_validator.CacheState.Types.{
  Refresh, RefreshResult, started, in_progress, suppressed, capacity_full, invalid_argument,
}
use pg_oauth_validator.HttpFreshness.Calculate.{
  Result, ok, invalid_argument as bad_argument, invalid_header, calculate,
}
use pg_oauth_validator.HttpTransport.Request.{HttpPolicy, HttpError}
use pg_oauth_validator.HttpTransport.Transfer.{Response, Got, got, not_got}
use pg_oauth_validator.IssuerKey.Context.{
  IssuerKeyError, jwks_http_failed, CachePolicy, IssuerKeyPolicy, Context, give_up,
  complete_response, complete_with, complete_refresh, set_selected, clear_selected, set_http_error,
  advance, look_up, Step, then_do, wait_refresh, begin_refresh, is_positive, cache_failed,
}
use pg_oauth_validator.IssuerKey.Documents.{stored_or_fail, is_fresh, is_copied}
use pg_oauth_validator.SharedCache.Io.{CacheIo}
use pg_oauth_validator.IssuerKey.Io.{Requests}
use pg_oauth_validator.IssuerKey.Keys.{
  direct_selected, direct_keys, refreshed_selected, stale_or_fail, refreshed_keys, select_in,
  copied_from, copied_keys, waited_keys, after_wait, keys_begun, refresh_keys, found_keys,
  cached_keys, Copied, copied_none, copied_key, is_key_not_found, is_miss, no_copy,
}
use pg_oauth_validator.IssuerKey.Provenance.{
  CopyOfKeys, KeysBehind, CachedKeys, KeysReceived, keys_begun_at,
}
use pg_oauth_validator.IssuerKey.Fetch.{cached_capacity}
use pg_oauth_validator.Base.{sym, ap, subst, ◌+◌}
use pg_oauth_validator.IssuerKey.Rules.{Ends, continue-Ends, advance-Ends}
use pg_oauth_validator.Jwks.Keys.{OpenSsl}
use pg_oauth_validator.Jwks.Select.{Selection, selected, unselected}
use pg_oauth_validator.Json.{Jansson}
use pg_oauth_validator.Url.Parts.{CurlUrl}
use pg_oauth_validator.Base.{
  inl, inr, ◌⊎◌, true, false, none, some, Bytes, ℤ, ℕ, ◌≡◌, Bool, ◌∙◌, refl, Bool-cases, ◌≢◌, not,
  ◌&&◌, ◌||◌, arith,
}

abbrev result_of : RefreshResult × Refresh → RefreshResult
result_of b = b.0

not_started : {x y : RefreshResult × Refresh} → x ≡ y → y.0 ≢ started → x.0 ≢ started
not_started e n h = n (sym (ap result_of e) ∙ h)

module _ (J : Jansson) (ssl : OpenSsl) (curl : CurlUrl) (getdate : Bytes → ℤ) (io : CacheIo)
    (web : Requests) where
  module _ (p : IssuerKeyPolicy) (key_id : Bytes) (algorithm : ℕ) where
    -- The result holds a key that was selected in a document of the kind.
    pub record Has (From : Bytes → Type 0) (c : Context J io) : Type 0 where
      pub document : Bytes
      pub from : From document
      pub key : J.Json
      pub found : ℕ
      pub selected_is :
          select_in J ssl curl getdate io web p key_id algorithm document ≡ selected key found
      pub result_is : c.selected ≡ some (key, found)

    abbrev pub EndsWith :
        (From : Bytes → Type 0) → Context J io × (IssuerKeyError ⊎ Unit {0}) → Type 0
    EndsWith From x = Ends J io (λ u c. Has From c) (λ e c. Unit {0}) x

    direct_selected_has :
        (From : Bytes → Type 0) (d : Bytes) (s : Selection J ssl) (c : Context J io)
        → From d
        → select_in J ssl curl getdate io web p key_id algorithm d ≡ s
        → EndsWith From (direct_selected J ssl curl getdate io web p key_id algorithm s c)
    unfolding direct_selected set_selected
    direct_selected_has From d (selected k a) c f h = record {
      document = d;
      from = f;
      key = k;
      found = a;
      selected_is = h;
      result_is = refl;
    }
    direct_selected_has From d (unselected e) c f h = tt

    pub direct_keys_has :
        (uri : Bytes) (http : HttpPolicy) (g : Got) (c : Context J io)
        → web.jwks_request uri http ≡ g
        → EndsWith
            (KeysReceived io web uri http)
            (direct_keys J ssl curl getdate io web p key_id algorithm g c)
    unfolding direct_keys set_http_error
    direct_keys_has uri http (not_got e) c h = tt
    direct_keys_has uri http (got r) c h =
        direct_selected_has (KeysReceived io web uri http) r.body
          (select_in J ssl curl getdate io web p key_id algorithm r.body)
          (record c { http_error = none }) (r, h, refl) refl

    complete_with_keeps :
        (r : Refresh) (grace : ℤ) (x : Response) (f : Result) (c : Context J io)
        → Ends J io
            (λ b d. d.selected ≡ c.selected)
            (λ e d. Unit {0})
            (complete_with J io getdate r grace x f c)
    unfolding complete_with complete_refresh give_up
    complete_with_keeps r grace x (ok f) c = refl
    complete_with_keeps r grace x bad_argument c = refl
    complete_with_keeps r grace x invalid_header c = refl

    -- What a copy of the key set was found to be.
    abbrev CopiedIs : IoLookup → Copied J ssl curl getdate io web → Type 0
    CopiedIs l no_copy = Unit {0}
    CopiedIs l (copied_none e) = Unit {0}
    CopiedIs l (copied_key f k a) =
        (is_miss l.freshness ≡ false)
        × (is_fresh l.freshness ≡ f)
        × (is_copied l.copy_result ≡ true)
        × (select_in J ssl curl getdate io web p key_id algorithm l.output ≡ selected k a)

    copied_from_is :
        (l : IoLookup) (s : Selection J ssl)
        → (is_miss l.freshness || not (is_copied l.copy_result)) ≡ false
        → select_in J ssl curl getdate io web p key_id algorithm l.output ≡ s
        → CopiedIs l (copied_from J ssl curl getdate io web (is_fresh l.freshness) s)
    unfolding copied_from
    copied_from_is l (unselected e) h g = tt
    copied_from_is l (selected k a) h g = (ground (arith, h), refl, ground (arith, h), g)

    copied_keys_is :
        (l : IoLookup) → CopiedIs l (copied_keys J ssl curl getdate io web p key_id algorithm l)
    unfolding copied_keys
    copied_keys_is l = elim (Bool-cases (is_miss l.freshness || not (is_copied l.copy_result))) [
      | inl e ↦ rw e tt
      | inr e ↦ rw e (
          copied_from_is l (select_in J ssl curl getdate io web p key_id algorithm l.output) e refl)
    ]

    -- The second half, which starts in a context.
    module _ (url issuer : Bytes) (q : CachePolicy) (time : ℤ) (key uri : Bytes) (http : HttpPolicy)
        (b : Context J io) where
      abbrev size : ℕ
      size = cached_capacity p

      abbrev allow : Bool
      allow = is_positive q.jwks_stale_grace_ms

      abbrev looked : io.State × IoLookup
      looked = io.lookup b.cache key b.now allow size

      abbrev pub AnyKeys : Bytes → Type 0
      AnyKeys d = CachedKeys io web J curl getdate p url issuer q b key uri http d

      abbrev begun_at : Bool → io.State × (RefreshResult × Refresh)
      begun_at u = keys_begun_at io web J curl getdate p url issuer q b key uri http u

      abbrev waited_at : Bool → io.State × Wait
      waited_at u = io.wait_refresh (begun_at u).0 key q.refresh_wait_timeout_ms

      stored-Has :
          (a : Bool) (c : Context J io)
          → Has AnyKeys c
          → EndsWith AnyKeys (stored_or_fail J curl getdate io web a c)
      unfolding stored_or_fail
      stored-Has true c h = h
      stored-Has false c h = tt

      moved : (c d : Context J io) → Has AnyKeys c → d.selected ≡ c.selected → Has AnyKeys d
      moved c d h e = record {
        document = h.document;
        from = h.from;
        key = h.key;
        found = h.found;
        selected_is = h.selected_is;
        result_is = e ∙ h.result_is;
      }

      refreshed_selected_has :
          (u : Bool) (refresh : Refresh) (r : Response) (s : Selection J ssl) (c : Context J io)
          → (begun_at u).1.0 ≡ started
          → web.jwks_request uri http ≡ got r
          → select_in J ssl curl getdate io web p key_id algorithm r.body ≡ s
          → EndsWith AnyKeys (
              refreshed_selected J ssl curl getdate io web p key_id algorithm q time key size
                refresh r s c)
      unfolding refreshed_selected set_selected give_up complete_refresh complete_response
      refreshed_selected_has u refresh r (unselected e) c i g h = tt
      refreshed_selected_has u refresh r (selected k a) c i g h =
          let c' : Context J io = record c { jwks_error = none; selected = some (k, a) } in
          let has : Has AnyKeys c' = record {
            document = r.body;
            from = inr (inr (inr (u, i, (r, g, refl))));
            key = k;
            found = a;
            selected_is = h;
            result_is = refl;
          } in
          let f = calculate getdate r.headers time (some q.jwks_freshness) in
          continue-Ends J io (λ a d. d.selected ≡ c'.selected) (λ u d. Has AnyKeys d)
            (λ e d. Unit {0}) (stored_or_fail J curl getdate io web)
            (complete_with J io getdate refresh q.jwks_stale_grace_ms r f c')
            (complete_with_keeps refresh q.jwks_stale_grace_ms r f c')
            λ a d e. stored-Has a d (moved c' d has e)

      -- A key from the stale copy of the lookup, which counts only if no new document was to be had.
      pub record HasStale (c : Context J io) : Type 0 where
        pub document : Bytes
        pub copy : CopyOfKeys io web J curl getdate p url issuer q b key uri http document false
        pub key_of : J.Json
        pub found : ℕ
        pub selected_is :
            select_in J ssl curl getdate io web p key_id algorithm document ≡ selected key_of found
        pub result_is : c.selected ≡ some (key_of, found)

      -- The refresh behind a stale copy is not for an unknown key id.
      abbrev pub HeldStale : (unknown stale : Bool) → Context J io → Type 0
      HeldStale u false c = Unit {0}
      HeldStale false true c = HasStale c
      HeldStale true true c = ⊥

      -- Why a refresh that was begun gives no document.
      abbrev NoDocument : Bool → Type 0
      NoDocument u =
          ((begun_at u).1.0 ≢ started)
          ⊎ (((begun_at u).1.0 ≡ started)
              × (e : HttpError) × (web.jwks_request uri http ≡ not_got e))

      stale_or_fail_has :
          (u a : Bool) (e : IssuerKeyError) (c d : Context J io)
          → NoDocument u
          → HeldStale u a c
          → d.selected ≡ c.selected
          → EndsWith AnyKeys
              (stale_or_fail J ssl curl getdate io web p key_id algorithm q time key size a e d)
      unfolding stale_or_fail
      stale_or_fail_has false true e c d n h s = record {
        document = h.document;
        from = inr (inr (inl (h.copy, n)));
        key = h.key_of;
        found = h.found;
        selected_is = h.selected_is;
        result_is = s ∙ h.result_is;
      }
      stale_or_fail_has true true e c d n h s = absurd h
      stale_or_fail_has u false e c d n h s = tt

      refreshed_keys_has :
          (u a : Bool) (refresh : Refresh) (g : Got) (c : Context J io)
          → (begun_at u).1.0 ≡ started
          → web.jwks_request uri http ≡ g
          → HeldStale u a c
          → EndsWith AnyKeys (
              refreshed_keys J ssl curl getdate io web p key_id algorithm q time key size a refresh
                g c)
      unfolding refreshed_keys set_http_error clear_selected give_up complete_refresh
      refreshed_keys_has u a refresh (not_got e) c i g h =
          stale_or_fail_has u a jwks_http_failed c _ (inr (i, e, g)) h refl
      refreshed_keys_has u true refresh (got r) c i g h =
          refreshed_selected_has u refresh r
            (select_in J ssl curl getdate io web p key_id algorithm r.body)
            (record c { http_error = none; selected = none }) i g refl
      refreshed_keys_has u false refresh (got r) c i g h =
          refreshed_selected_has u refresh r
            (select_in J ssl curl getdate io web p key_id algorithm r.body)
            (record c { http_error = none }) i g refl

      waited_keys_has :
          (u : Bool) (l : IoLookup) (d : Copied J ssl curl getdate io web) (c : Context J io)
          → ((f : Bool)
              → is_miss l.freshness ≡ false
              → is_fresh l.freshness ≡ f
              → is_copied l.copy_result ≡ true
              → KeysBehind io web J curl getdate p url issuer q b key uri http l.output)
          → CopiedIs l d
          → EndsWith AnyKeys
              (waited_keys J ssl curl getdate io web p key_id algorithm q time key size d c)
      unfolding waited_keys set_selected
      waited_keys_has u l no_copy c w h = tt
      waited_keys_has u l (copied_none e) c w h = tt
      waited_keys_has u l (copied_key f k a) c w (found, is, copied, sel) = record {
        document = l.output;
        from = inr (inl (w f found is copied));
        key = k;
        found = a;
        selected_is = sel;
        result_is = refl;
      }

      again : Unit {0} → Step J io (Unit {0})
      again u = then_do J io (look_up J io key allow size) λ l.
          waited_keys J ssl curl getdate io web p key_id algorithm q time key size
            (copied_keys J ssl curl getdate io web p key_id algorithm l)

      -- The context behind the wait.
      abbrev moved_on : Bool → Context J io → Context J io
      moved_on u c = record c { cache = (waited_at u).0; now = b.now + (waited_at u).1.elapsed_ms }

      again_has :
          (u : Bool) (x : Unit {0}) (c : Context J io)
          → (begun_at u).1.0 ≡ in_progress
          → (waited_at u).1.result ≡ true
          → EndsWith AnyKeys (again x (moved_on u c))
      unfolding again look_up
      again_has u x c i w =
          let d = moved_on u c in
          let l = io.lookup d.cache key d.now allow size in
          waited_keys_has u l.1 (copied_keys J ssl curl getdate io web p key_id algorithm l.1)
            (record d { cache = l.0 })
            (λ f found is copied. (
              u,
              f,
              (i, w, record { found = found; fresh_is = is; copied = copied; output_is = refl }),
            ))
            (copied_keys_is l.1)

      after_wait_has :
          (u : Bool) (c : Context J io)
          → c.now ≡ b.now
          → (begun_at u).1.0 ≡ in_progress
          → EndsWith AnyKeys (
              after_wait J ssl curl getdate io web p key_id algorithm q time key size
                (waited_at u).1
                (record c { cache = (waited_at u).0; now = b.now }))
      unfolding after_wait again
      after_wait_has u c n i =
          let d : Context J io = record c { cache = (waited_at u).0; now = b.now } in
          let t = (waited_at u).1.elapsed_ms in
          elim (Bool-cases (waited_at u).1.result) [
            | inr e ↦ rw e tt
            | inl e ↦ rw e (
                continue-Ends J io (λ x y. y ≡ moved_on u c) (λ x y. Has AnyKeys y)
                  (λ e y. Unit {0}) again (advance J io t d) (advance-Ends J io t d)
                  λ x y m.
                    subst (λ (z : Context J io). EndsWith AnyKeys (again x z)) (sym m)
                      (again_has u x c i e))
          ]

      stale_moved :
          (u a : Bool) (c : Context J io) (s : io.State)
          → HeldStale u a c
          → HeldStale u a (record c { cache = s; now = b.now })
      stale_moved u false c s h = tt
      stale_moved true true c s h = absurd h
      stale_moved false true c s h = record {
        document = h.document;
        copy = h.copy;
        key_of = h.key_of;
        found = h.found;
        selected_is = h.selected_is;
        result_is = h.result_is;
      }

      keys_begun_has :
          (u a : Bool) (x : RefreshResult × Refresh) (c : Context J io)
          → (begun_at u).1 ≡ x
          → HeldStale u a c
          → EndsWith AnyKeys (
              keys_begun J ssl curl getdate io web p key_id algorithm q time key size uri http a x
                (record c { cache = (begun_at u).0; now = b.now }))
      unfolding keys_begun wait_refresh
      keys_begun_has u a (started, r) c i h =
          refreshed_keys_has u a r (web.jwks_request uri http)
            (record c { cache = (begun_at u).0; now = b.now }) (ap result_of i) refl
            (stale_moved u a c (begun_at u).0 h)
      keys_begun_has u a (in_progress, r) c i h =
          elim (Bool-cases (not a && is_positive q.refresh_wait_timeout_ms)) [
            | inr e ↦ rw e (
                stale_or_fail_has u a cache_failed c
                  (record c { cache = (begun_at u).0; now = b.now }) (inl (not_started i λ z. cc)) h
                  refl)
            | inl e ↦ rw e (after_wait_has u (record c { now = b.now }) refl (ap result_of i))
          ]
      keys_begun_has u a (suppressed, r) c i h =
          stale_or_fail_has u a cache_failed c (record c { cache = (begun_at u).0; now = b.now })
            (inl (not_started i λ z. cc)) h refl
      keys_begun_has u a (capacity_full, r) c i h =
          stale_or_fail_has u a cache_failed c (record c { cache = (begun_at u).0; now = b.now })
            (inl (not_started i λ z. cc)) h refl
      keys_begun_has u a (invalid_argument, r) c i h =
          stale_or_fail_has u a cache_failed c (record c { cache = (begun_at u).0; now = b.now })
            (inl (not_started i λ z. cc)) h refl

      refresh_keys_has :
          (u a : Bool) (c : Context J io)
          → HeldStale u a c
          → EndsWith AnyKeys (
              refresh_keys J ssl curl getdate io web p key_id algorithm q time key size uri http u a
                (record c { cache = looked.0; now = b.now }))
      unfolding refresh_keys begin_refresh
      refresh_keys_has u a c h = keys_begun_has u a (begun_at u).1 c refl h

      found_keys_has :
          (d : Copied J ssl curl getdate io web)
          → CopiedIs looked.1 d
          → EndsWith AnyKeys (
              found_keys J ssl curl getdate io web p key_id algorithm q time key size uri http d
                (record b { cache = looked.0 }))
      unfolding found_keys set_selected
      found_keys_has no_copy h = refresh_keys_has false false b tt
      found_keys_has (copied_none e) h = elim (Bool-cases (is_key_not_found e)) [
        | inl f ↦
            rw f
              (refresh_keys_has true false (record b { jwks_error = some e; selected = none }) tt)
        | inr f ↦ rw f tt
      ]
      found_keys_has (copied_key true k a) (found, is, copied, sel) = record {
        document = looked.1.output;
        from = inl (record { found = found; fresh_is = is; copied = copied; output_is = refl });
        key = k;
        found = a;
        selected_is = sel;
        result_is = refl;
      }
      found_keys_has (copied_key false k a) (found, is, copied, sel) =
          refresh_keys_has false true (record b { jwks_error = none; selected = some (k, a) })
            (record {
              document = looked.1.output;
              copy = record { found = found; fresh_is = is; copied = copied; output_is = refl };
              key_of = k;
              found = a;
              selected_is = sel;
              result_is = refl;
            })

      pub cached_keys_has : EndsWith AnyKeys (
          cached_keys J ssl curl getdate io web p key_id algorithm q time key
            (cached_capacity p)
            uri
            http
            b)
      unfolding cached_keys look_up
      cached_keys_has =
          found_keys_has (copied_keys J ssl curl getdate io web p key_id algorithm looked.1)
            (copied_keys_is looked.1)
