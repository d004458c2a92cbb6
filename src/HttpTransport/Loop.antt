-- ===== src/HttpTransport/Loop.antt =====
-- The loop of a request ends.
use pg_oauth_validator.Url.Parts.{CurlUrl}
use pg_oauth_validator.HttpTransport.Request.{
  HttpPolicy, ParsedUrl, parsed_url, unparsed, validate_request_url, interrupted, http_bad_argument,
  network_failure,
}
use pg_oauth_validator.HttpTransport.Transfer.{
  Round, Buffers, Polled, poll_loop, receive_all, stopped, transferred, Exchange, Got, get_json,
  request_for, request_url, run_request, finish_polled, finish, empty_buffers, setup_error, not_got,
  bad_http_policy,
}
use pg_oauth_validator.Base.{
  true, false, none, some, Bool, Option, ◌&&◌, ◌≡◌, ℕ, ◌||◌, ◌+◌, not, true, suc, zero,
  if◌then◌else◌, ◌⊎◌, arith, Option-cases, Bytes, refl, inr, ◌<◌, inl, Bool-cases, subst, is_empty,
}

-- The round is the last: the caller cancels, libcurl fails, or the transfer no longer runs.
abbrev pub ends : Bool → Round → Bool
ends cancellable r =
    (cancellable && r.cancelled) || not r.perform_ok || not r.running || not r.poll_ok

-- Both results are there, and the same.
Agree : (a b : Option Polled) → Type 0
Agree a b = (r : Polled) × (a ≡ some r) × (b ≡ some r)

-- The tests of one round, with what follows the round twice.
abbrev after : Bool → Bool → Bool → Bool → Polled → Polled → Polled → Option Polled → Option Polled
after w x y z p q r u =
    if w then some p else if x then some q else if y then some r else if z then some q else u

after-Agree :
    (w x y z : Bool) (p q r : Polled) (u v : Option Polled)
    → ((w || x || y || z) ≡ true) ⊎ Agree u v
    → Agree (after w x y z p q r u) (after w x y z p q r v)
unfolding Agree
after-Agree true x y z p q r u v h = (p, refl, refl)
after-Agree false true y z p q r u v h = (q, refl, refl)
after-Agree false false true z p q r u v h = (r, refl, refl)
after-Agree false false false true p q r u v h = (q, refl, refl)
after-Agree false false false false p q r u v (inl e) = absurd (cc e)
after-Agree false false false false p q r u v (inr a) = a

poll_loop-ends :
    (cancellable : Bool) (round : ℕ → Round) (k n fuel : ℕ) (b : Buffers)
    → ends cancellable (round (n + k)) ≡ true
    → k < fuel
    → Agree (poll_loop fuel cancellable round n b) (poll_loop (suc k) cancellable round n b)
unfolding poll_loop
poll_loop-ends c round k n zero b h lt = absurd (omega arith)
poll_loop-ends c round zero n (suc fuel) b h lt =
    let r = round n in
    let e : n + zero ≡ n = omega arith in
    after-Agree (c && r.cancelled) (not r.perform_ok) (not r.running) (not r.poll_ok)
      (stopped interrupted) (stopped network_failure) (transferred (receive_all b r.parts)) _ _
      (inl (subst (λ m. ends c (round m) ≡ true) e h))
poll_loop-ends c round (suc k) n (suc fuel) b h lt =
    let r = round n in
    let e : n + suc k ≡ suc n + k = omega arith in
    after-Agree (c && r.cancelled) (not r.perform_ok) (not r.running) (not r.poll_ok)
      (stopped interrupted) (stopped network_failure) (transferred (receive_all b r.parts)) _ _
      (inr (
        poll_loop-ends c round k (suc n) fuel (receive_all b r.parts)
          (subst (λ m. ends c (round m) ≡ true) e h) (omega arith)))

module _ (curl : CurlUrl) where
  -- Two fuels with the same result.
  Settled : (a b : Option Got) → Type 0
  Settled a b = (g : Got) × (a ≡ some g) × (b ≡ some g)

  settled : (g : Got) → Settled (some g) (some g)
  unfolding Settled
  settled g = (g, refl, refl)

  run_request-ends :
      (p : HttpPolicy) (x : Exchange) (k fuel : ℕ)
      → ends p.cancellable (x.round k) ≡ true
      → k < fuel
      → Settled (run_request fuel p x) (run_request (suc k) p x)
  unfolding run_request finish_polled Settled Agree
  run_request-ends p x k fuel h lt = elim (Option-cases (setup_error p x)) [
    | inr (e, s) ↦ (not_got e, rw (s, run_request) refl, rw (s, run_request) refl)
    | inl s ↦
        let zero_k : k ≡ 0 + k = omega arith in
        let (r, d, e) =
          poll_loop-ends p.cancellable x.round k 0 fuel (empty_buffers p)
            (subst (λ m. ends p.cancellable (x.round m) ≡ true) zero_k h) lt in
        (
          finish p x r,
          rw (s, d, run_request, finish_polled) refl,
          rw (s, e, run_request, finish_polled) refl,
        )
  ]

  request_url-ends :
      (p : HttpPolicy) (x : curl.Handle → Exchange) (k fuel : ℕ) (u : ParsedUrl curl)
      → ((h : curl.Handle) → ends p.cancellable ((x h).round k) ≡ true)
      → k < fuel
      → Settled (request_url curl fuel p x u) (request_url curl (suc k) p x u)
  unfolding request_url
  request_url-ends p x k fuel (unparsed e) h lt = settled (not_got e)
  request_url-ends p x k fuel (parsed_url url host) h lt =
      run_request-ends p (x url) k fuel (h url) lt

  request_for-ends :
      (url : Bytes) (p : HttpPolicy) (x : curl.Handle → Exchange) (k fuel : ℕ) (o : Option Bytes)
      → ((h : curl.Handle) → ends p.cancellable ((x h).round k) ≡ true)
      → k < fuel
      → Settled (request_for curl fuel url p x o) (request_for curl (suc k) url p x o)
  unfolding request_for
  request_for-ends url p x k fuel none h lt = settled (not_got http_bad_argument)
  request_for-ends url p x k fuel (some a) h lt =
      elim (Bool-cases (is_empty a || bad_http_policy p)) [
        | inl e ↦ rw e (settled (not_got http_bad_argument))
        | inr e ↦ rw e (request_url-ends p x k fuel (validate_request_url curl (some url) p a) h lt)
      ]

  -- A request returns as soon as a round is the last one, because the caller cancels it, libcurl
  -- fails, or the transfer no longer runs: if that is so in round k, then k + 1 rounds are enough,
  -- and any more give the same result.
  pub get_json_returns :
      (url : Bytes) (p : HttpPolicy) (x : curl.Handle → Exchange) (k fuel : ℕ)
      → ((h : curl.Handle) → ends p.cancellable ((x h).round k) ≡ true)
      → k < fuel
      → (g : Got) × (get_json curl fuel (some url) (some p) x ≡ some g)
        × (get_json curl (suc k) (some url) (some p) x ≡ some g)
  unfolding get_json Settled
  get_json_returns url p x k fuel h lt = request_for-ends url p x k fuel p.allowed_host h lt
