-- ===== src/SharedCache/Waiting.antt =====
-- A backend that waits for the refresh of another.
use pg_oauth_validator.CacheState.Types.{Cache}
use pg_oauth_validator.CacheState.Lookup.{lookup, is_refreshing}
use pg_oauth_validator.CacheState.Complete.{Outcome}
use pg_oauth_validator.CacheState.History.{Op, run}
use pg_oauth_validator.CacheState.Fetch.{stored_reply}
use pg_oauth_validator.SharedCache.Operations.{
  wait_on, shared_cache_wait_refresh, bad_key, bad_timeout, locked_on, not_waited, with_cache,
  After, Wait,
}
use pg_oauth_validator.SharedCache.State.{Sizes, Registry, Segment, Backend, shared_cache_attach}
use pg_oauth_validator.CacheState.Types.{max_key_size}
use pg_oauth_validator.Base.{
  subst, none, not, ◌&&◌, ◌||◌, if◌then◌else◌, magnitude, length, ◌<◌, negsuc,
}
use pg_oauth_validator.Base.{
  some, true, false, Option, List, Bytes, ℕ, ℤ, ◌≤◌, ◌≡◌, Bool, ◌↔◌, refl, ◌⊎◌, pos, Bool-cases,
  sym, inl, arith, inr,
}

-- A key that the cache takes, and a timeout that the wait takes.
abbrev pub GoodKey : Option Bytes → Type 0
GoodKey key = (k : Bytes) × (key ≡ some k) × (0 < length k) × (length k ≤ max_key_size)

abbrev pub GoodTimeout : ℤ → Type 0
GoodTimeout timeout = (n : ℕ) × (timeout ≡ pos n) × (1 ≤ n) × (n ≤ 5000)

good_key : (key : Option Bytes) → bad_key key ≡ false → GoodKey key
good_key none h = absurd (cc h)
good_key (some k) h = (k, refl, ground (arith, h), ground (arith, h))

key_good : (key : Option Bytes) → GoodKey key → bad_key key ≡ false
key_good none (k, e, l, m) = absurd (cc e)
key_good (some k') (k, e, l, m) = let same : k' ≡ k = cc e in rw same (ground (arith, l, m))

good_timeout : (timeout : ℤ) → bad_timeout timeout ≡ false → GoodTimeout timeout
unfolding bad_timeout
good_timeout (pos n) h = (n, refl, ground (arith, h), ground (arith, h))
good_timeout (negsuc n) h = absurd (ground (arith, h))

timeout_good : (timeout : ℤ) → GoodTimeout timeout → bad_timeout timeout ≡ false
unfolding bad_timeout
timeout_good timeout (n, e, l, m) = rw e (ground (arith, l, m))

-- What a wait on a cache does, and what it says.
abbrev WaitIs : Segment → Option Bytes → ℤ → List Op → After Wait → Type 0
WaitIs s key timeout slept w =
    let sleeps = not (bad_key key || bad_timeout timeout) && is_refreshing s.cache key in
    ((w.result.result ≡ true) ↔ (
      GoodKey key
      × GoodTimeout timeout
      × ((is_refreshing s.cache key ≡ false) ⊎ (is_refreshing (run s.cache slept) key ≡ false))))
    × (w.segment ≡ some (with_cache s (if sleeps then run s.cache slept else s.cache)))
    × (w.result.elapsed_ms ≡ (if sleeps then magnitude timeout else 0))

abbrev checked : Segment → Option Bytes → ℤ → List Op → Cache × Wait
checked s key timeout slept =
    if bad_key key || bad_timeout timeout
    then (s.cache, not_waited)
    else wait_on key (magnitude timeout) slept s.cache

-- A wait of a backend that is attached.
abbrev waited_by : Backend → Segment → Cache × Wait → After Wait
waited_by b s x = record { backend = b; segment = some (with_cache s x.0); result = x.1 }

checked-WaitIs :
    (b : Backend) (s : Segment) (key : Option Bytes) (timeout : ℤ) (slept : List Op)
    → WaitIs s key timeout slept (waited_by b s (checked s key timeout slept))
unfolding wait_on
checked-WaitIs b s key timeout slept = elim (Bool-cases (bad_key key || bad_timeout timeout)) [
  | inl e ↦ rw e (
    (
      (λ h. absurd (cc h)),
      λ g. absurd (ground (arith, e, key_good key g.0, timeout_good timeout g.1)),
    ),
    refl,
    refl,
  )
  | inr e ↦
      let k = good_key key (ground (arith, e)) in
      let t = good_timeout timeout (ground (arith, e)) in
      elim (Bool-cases (is_refreshing s.cache key)) [
        | inl r ↦
            rw (e, r)
              (
                (
                  (λ h. (k, t, inr (ground (arith, h)))),
                  λ g. elim (g.2) [ inl y ↦ absurd (cc y) | inr y ↦ ground (arith, y) ],
                ),
                refl,
                refl,
              )
        | inr r ↦ rw (e, r) (((λ h. (k, t, inl refl)), λ g. refl), refl, refl)
      ]
]

-- The wait says true after its timeout, and the cache that it leaves answers what the owner stored.
abbrev Answered :
    (k : Bytes) (timeout n : ℕ) (allow : Bool) (t : ℕ) → Outcome → Segment → After Wait → Type 0
Answered k timeout n allow t o s w =
    (w.result ≡ record { result = true; elapsed_ms = timeout })
    × (left : Cache) × (w.segment ≡ some (with_cache s left))
    × ((lookup left (some k) (pos n) allow).freshness ≡ (stored_reply t o n allow).0)

module _ (sizes : Sizes) (registry : Registry) where
  -- A wait of a backend whose attachment gives the segment.
  attached_wait :
      (b : Backend) (o : Option Segment) (attached : Bool) (s : Segment) (key : Option Bytes)
      (timeout : ℤ) (slept : List Op)
      → o ≡ some s
      → attached ≡ true
      → locked_on b o attached not_waited (λ c.
        if bad_key key || bad_timeout timeout
        then (c, not_waited)
        else wait_on key (magnitude timeout) slept c)
        ≡ waited_by b s (checked s key timeout slept)
  unfolding locked_on
  attached_wait b o attached s key timeout slept e h = rw (e, h) refl

  -- The wait of an attached backend says true exactly if the key and the timeout are within their
  -- bounds, the timeout at least one and at most 5000 milliseconds, and no refresh of the key is under
  -- way before or after the sleep. It sleeps exactly if both are within bounds and a refresh is under
  -- way: then what the others do meanwhile is done once, and the time that it reports is the timeout,
  -- and else nothing is done and the time is none.
  pub shared_cache_wait_refresh_result :
      (b : Backend) (segment : Option Segment) (s : Segment) (key : Option Bytes) (timeout : ℤ)
      (slept : List Op)
      → (shared_cache_attach sizes registry b segment).segment ≡ some s
      → (shared_cache_attach sizes registry b segment).result ≡ true
      → let w = shared_cache_wait_refresh sizes registry b segment key timeout slept in
        let sleeps = not (bad_key key || bad_timeout timeout) && is_refreshing s.cache key in
        ((w.result.result ≡ true) ↔ (
          GoodKey key
          × GoodTimeout timeout
          × ((is_refreshing s.cache key ≡ false)
              ⊎ (is_refreshing (run s.cache slept) key ≡ false))))
        × (w.segment ≡ some (with_cache s (if sleeps then run s.cache slept else s.cache)))
        × (w.result.elapsed_ms ≡ (if sleeps then magnitude timeout else 0))
  unfolding shared_cache_wait_refresh
  shared_cache_wait_refresh_result b segment s key timeout slept es ea =
      let a = shared_cache_attach sizes registry b segment in
      subst (WaitIs s key timeout slept)
        (sym (attached_wait a.backend a.segment a.result s key timeout slept es ea))
        (checked-WaitIs a.backend s key timeout slept)
