-- ===== src/CacheState/History.antt =====
-- Histories: what the backends that share a cache do to it, one call after the other.
use pg_oauth_validator.CacheState.Preserve.{lookup-IsValid, init-IsValid, begin_refresh-IsValid}
use pg_oauth_validator.CacheState.PreserveComplete.{complete_refresh-IsValid}
use pg_oauth_validator.CacheState.Begin.{begin_refresh}
use pg_oauth_validator.CacheState.Invariant.{IsValid}
use pg_oauth_validator.CacheState.Lookup.{lookup}
use pg_oauth_validator.CacheState.Complete.{Outcome, complete_refresh}
use pg_oauth_validator.CacheState.Types.{Refresh, Cache, init}
use pg_oauth_validator.Base.{
  [], Option, ℕ, Bytes, ℤ, Bool, List, ◌≤◌, ◌∷◌, int64_max, All, ◌≡◌, some, magnitude, ◌++◌, refl,
}

pub data Op : Type 0 where
  looks_up : Option Bytes → ℤ → Bool → Op
  begins : Option Bytes → ℤ → Bool → ℤ → Op
  completes : Refresh → ℤ → Outcome → Op

unfoldable pub step : Cache → Op → Cache
step c (looks_up k now allow_stale) = (lookup c k now allow_stale).cache
step c (begins k now unknown_kid cooldown) = (begin_refresh c k now unknown_kid cooldown).cache
step c (completes r now o) = (complete_refresh c r now o).cache

unfoldable pub run : Cache → List Op → Cache
run c [] = c
run c (op ∷ ops) = run (step c op) ops

pub run-append : (c : Cache) (ops more : List Op) → run c (ops ++ more) ≡ run (run c ops) more
unfolding run
run-append c [] more = refl
run-append c (op ∷ ops) more = run-append (step c op) ops more

-- The times that a completion stores are int64 values.
abbrev pub InRange : Op → Type 0
InRange (completes r now o) = magnitude now ≤ int64_max
InRange (looks_up k now allow_stale) = Unit {0}
InRange (begins k now unknown_kid cooldown) = Unit {0}

pub step-IsValid : (c : Cache) (op : Op) → InRange op → IsValid c → IsValid (step c op)
unfolding step
step-IsValid c (looks_up k now allow) h v = lookup-IsValid c k now allow v
step-IsValid c (begins k now u cooldown) h v = begin_refresh-IsValid c k now u cooldown v
step-IsValid c (completes r now o) h v = complete_refresh-IsValid c r now o h v

pub run-IsValid : (c : Cache) (ops : List Op) → All InRange ops → IsValid c → IsValid (run c ops)
unfolding run
run-IsValid c [] h v = v
run-IsValid c (op ∷ ops) h v = run-IsValid (step c op) ops h.1 (step-IsValid c op h.0 v)

-- Whatever calls the backends make on a cache from its creation on, with completions at int64
-- times, each of its entries is sound, no key has two entries, and the next serial is not 0.
pub run-init-IsValid :
    (capacity : ℕ) {c : Cache} (ops : List Op)
    → init capacity ≡ some c
    → All InRange ops
    → IsValid (run c ops)
run-init-IsValid capacity {c} ops h r = run-IsValid c ops r (init-IsValid capacity h)
