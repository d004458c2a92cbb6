-- ===== src/IssuerKey/Protocol.antt =====
-- Who owns a refresh: between its start and its completion nothing else happens to the cache.
use pg_oauth_validator.CacheState.Types.{
  RefreshResult, started, in_progress, suppressed, capacity_full, invalid_argument, Refresh,
}
use pg_oauth_validator.CacheState.Complete.{Outcome}
use pg_oauth_validator.HttpTransport.Transfer.{Response}
use pg_oauth_validator.HttpFreshness.Calculate.{
  Result, ok, invalid_argument as bad_argument, invalid_header, calculate, Policy,
}
use pg_oauth_validator.IssuerKey.Context.{
  IssuerKeyError, Context, Step, continue, pure, give_up, complete_refresh, complete_with,
  complete_response, look_up, begin_refresh, wait_refresh, advance,
}
use pg_oauth_validator.SharedCache.Io.{CacheIo}
use pg_oauth_validator.IssuerKey.Rules.{Ends, continue-Ends}
use pg_oauth_validator.Json.{Jansson}
use pg_oauth_validator.Base.{
  inl, inr, ◌⊎◌, Bytes, ◌≡◌, ℕ, Bool, ℤ, ◌≢◌, Bool-cases, some, ltb, refl, int64_max, ◌-◌, false,
}

-- A property of the cache while no refresh is open, and one while one is.
pub record Protocol (io : CacheIo) : Type 1 where
  pub Idle : io.State → Type 0
  pub Open : Refresh → io.State → Type 0
  pub lookup_idle :
      (s : io.State) (k : Bytes) (n : ℕ) (allow : Bool) (size : ℕ)
      → Idle s
      → Idle (io.lookup s k n allow size).0
  pub wait_idle : (s : io.State) (k : Bytes) (t : ℤ) → Idle s → Idle (io.wait_refresh s k t).0
  pub begin_opens :
      (s : io.State) (k : Bytes) (n : ℕ) (u : Bool) (m : ℤ)
      → Idle s
      → (io.begin_refresh s k n u m).1.0 ≡ started
      → Open (io.begin_refresh s k n u m).1.1 (io.begin_refresh s k n u m).0
  pub begin_idle :
      (s : io.State) (k : Bytes) (n : ℕ) (u : Bool) (m : ℤ)
      → Idle s
      → (io.begin_refresh s k n u m).1.0 ≢ started
      → Idle (io.begin_refresh s k n u m).0
  pub complete_idle :
      (s : io.State) (r : Refresh) (n : ℕ) (o : Outcome)
      → Open r s
      → Idle (io.complete_refresh s r n o).0

module _ (J : Jansson) (io : CacheIo) (P : Protocol io) where
  -- However a step ends, no refresh is open.
  abbrev pub IdleAt : Context J io → Type 0
  IdleAt c = P.Idle c.cache

  abbrev pub EndsIdle : {A : Type 0} → Context J io × (IssuerKeyError ⊎ A) → Type 0
  EndsIdle x = Ends J io (λ a c. IdleAt c) (λ e c. IdleAt c) x

  pub continue-EndsIdle :
      {A B : Type 0} (f : A → Step J io B) (x : Context J io × (IssuerKeyError ⊎ A))
      → EndsIdle x
      → ((a : A) (c : Context J io) → IdleAt c → EndsIdle (f a c))
      → EndsIdle (continue J io f x)
  continue-EndsIdle f x h k =
      continue-Ends J io (λ a c. IdleAt c) (λ b c. IdleAt c) (λ e c. IdleAt c) f x h k

  pub give_up_idle :
      (r : Refresh) (c : Context J io) → P.Open r c.cache → EndsIdle (give_up J io r c)
  unfolding give_up complete_refresh
  give_up_idle r c h = P.complete_idle c.cache r c.now _ h

  complete_with_idle :
      (getdate : Bytes → ℤ) (r : Refresh) (grace : ℤ) (x : Response) (f : Result) (c : Context J io)
      → P.Open r c.cache
      → EndsIdle (complete_with J io getdate r grace x f c)
  unfolding complete_with complete_refresh
  complete_with_idle getdate r grace x (ok f) c h = P.complete_idle c.cache r c.now _ h
  complete_with_idle getdate r grace x bad_argument c h =
      continue-EndsIdle (λ u. pure J io false) (give_up J io r c) (give_up_idle r c h) λ a c' i. i
  complete_with_idle getdate r grace x invalid_header c h =
      continue-EndsIdle (λ u. pure J io false) (give_up J io r c) (give_up_idle r c h) λ a c' i. i

  pub complete_response_idle :
      (getdate : Bytes → ℤ) (r : Refresh) (time : ℤ) (p : Policy) (grace : ℤ) (x : Response)
      (c : Context J io)
      → P.Open r c.cache
      → EndsIdle (complete_response J io getdate r time p grace x c)
  unfolding complete_response
  complete_response_idle getdate r time p grace x c h =
      complete_with_idle getdate r grace x (calculate getdate x.headers time (some p)) c h

  -- Behind a begin: a started refresh is open, and with any other result there is none.
  abbrev pub Begun : RefreshResult × Refresh → Context J io → Type 0
  Begun (started, r) c = P.Open r c.cache
  Begun (in_progress, r) c = IdleAt c
  Begun (suppressed, r) c = IdleAt c
  Begun (capacity_full, r) c = IdleAt c
  Begun (invalid_argument, r) c = IdleAt c

  begun :
      (b : RefreshResult × Refresh) (c : Context J io)
      → (b.0 ≡ started → P.Open b.1 c.cache)
      → (b.0 ≢ started → IdleAt c)
      → Begun b c
  begun (started, r) c h k = h refl
  begun (in_progress, r) c h k = k λ e. cc
  begun (suppressed, r) c h k = k λ e. cc
  begun (capacity_full, r) c h k = k λ e. cc
  begun (invalid_argument, r) c h k = k λ e. cc

  pub begin_refresh-Ends :
      (k : Bytes) (u : Bool) (m : ℤ) (c : Context J io)
      → IdleAt c
      → Ends J io Begun (λ e c. IdleAt c) (begin_refresh J io k u m c)
  unfolding begin_refresh
  begin_refresh-Ends k u m c h =
      let x = io.begin_refresh c.cache k c.now u m in
      begun x.1 (record c { cache = x.0 }) (P.begin_opens c.cache k c.now u m h)
        (P.begin_idle c.cache k c.now u m h)

  pub look_up_idle :
      (k : Bytes) (allow : Bool) (size : ℕ) (c : Context J io)
      → IdleAt c
      → EndsIdle (look_up J io k allow size c)
  unfolding look_up
  look_up_idle k allow size c h = P.lookup_idle c.cache k c.now allow size h

  pub wait_refresh_idle :
      (k : Bytes) (t : ℤ) (c : Context J io) → IdleAt c → EndsIdle (wait_refresh J io k t c)
  unfolding wait_refresh
  wait_refresh_idle k t c h = P.wait_idle c.cache k t h

  pub advance_idle : (t : ℕ) (c : Context J io) → IdleAt c → EndsIdle (advance J io t c)
  unfolding advance
  advance_idle t c h = elim (Bool-cases (ltb (int64_max - c.now) t)) [
    | inl e ↦ rw e h
    | inr e ↦ rw e h
  ]
