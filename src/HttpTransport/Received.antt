-- ===== src/HttpTransport/Received.antt =====
-- What the result of a whole request tells.
use pg_oauth_validator.Url.Parts.{CurlUrl}
use pg_oauth_validator.HttpTransport.Bounded.{receive_all_fits}
use pg_oauth_validator.HttpTransport.Sound.{
  Requested, validate_request_url-Requested, ParsedUrl-cases,
}
use pg_oauth_validator.HttpTransport.Buffer.{bytes_of}
use pg_oauth_validator.HttpTransport.Request.{
  HttpPolicy, HttpError, validate_request_url, json_content_type, interrupted, http_status,
  content_type, http_out_of_memory,
}
use pg_oauth_validator.HttpTransport.Transfer.{
  Round, Part, Buffers, Polled, poll_loop, receive_all, stopped, transferred, Exchange, Got, got,
  not_got, get_json, request_for, request_url, run_request, finish_polled, finish, finish_message,
  finish_status, finish_type, empty_buffers, setup_error, CurlCode, curle_ok, Response, bad_status,
  is_curle_ok, receive, filesize_exceeded, operation_timedout, peer_failed_verification,
  ssl_connect_error, ssl_cacert_badfile, ssl_certproblem, other_failure, transfer_error,
  bad_http_policy,
}
use pg_oauth_validator.Base.{
  [], ◌∷◌, none, some, true, false, ℕ, Bool, List, ◌≡◌, not, suc, ◌&&◌, ◌++◌, if◌then◌else◌,
  Bool-cases, length, refl, inl, ◌≤◌, inr, sym, ◌∙◌, zero, Option, ◌⊎◌, Option-cases, Bytes, ℤ,
  arith, is_empty, ap, subst, ◌||◌, is_none,
}

-- The parts that libcurl delivers in `k + 1` rounds from round `n` on.
unfoldable pub parts_of : (ℕ → Round) → ℕ → ℕ → List Part
parts_of round n zero = (round n).parts
parts_of round n (suc k) = (round n).parts ++ parts_of round (suc n) k

-- The rounds before the last one went on, and the last one ended the transfer; none was cancelled.
abbrev pub Transferred : Bool → (ℕ → Round) → ℕ → ℕ → Type 0
Transferred c round n zero =
    ((c && (round n).cancelled) ≡ false)
    × ((round n).perform_ok ≡ true)
    × ((round n).running ≡ false)
Transferred c round n (suc k) =
    ((c && (round n).cancelled) ≡ false)
    × ((round n).perform_ok ≡ true)
    × ((round n).running ≡ true)
    × ((round n).poll_ok ≡ true)
    × Transferred c round (suc n) k

receive_all-append :
    (b : Buffers) (ps qs : List Part) → receive_all b (ps ++ qs) ≡ receive_all (receive_all b ps) qs
unfolding receive_all
receive_all-append b [] qs = refl
receive_all-append b (p ∷ ps) qs = receive_all-append (receive b p) ps qs

poll_loop-Transferred :
    (fuel : ℕ) (c : Bool) (round : ℕ → Round) (n : ℕ) (b b' : Buffers)
    → poll_loop fuel c round n b ≡ some (transferred b')
    → (k : ℕ) × Transferred c round n k × (b' ≡ receive_all b (parts_of round n k))
unfolding poll_loop parts_of
poll_loop-Transferred zero c round n b b' h = absurd (cc h)
poll_loop-Transferred (suc fuel) c round n b b' h =
    let r = round n in
    elim (Bool-cases (c && r.cancelled)) [
      | inl e ↦ absurd (cc (rw e at h))
      | inr e ↦ elim (Bool-cases r.perform_ok) [
        | inr e1 ↦ absurd (cc (rw (e, e1) at h))
        | inl e1 ↦ elim (Bool-cases r.running) [
          | inr e2 ↦ (0, (e, e1, e2), sym (cc (rw (e, e1, e2) at h)))
          | inl e2 ↦ elim (Bool-cases r.poll_ok) [
            | inr e3 ↦ absurd (cc (rw (e, e1, e2, e3) at h))
            | inl e3 ↦
                let (k, t, eq) =
                  poll_loop-Transferred fuel c round (suc n) (receive_all b r.parts) b'
                    (rw (e, e1, e2, e3) at h) in
                (
                  suc k,
                  (e, e1, e2, e3, t),
                  eq ∙ sym (receive_all-append b r.parts (parts_of round (suc n) k)),
                )
          ]
        ]
      ]
    ]

module _ (curl : CurlUrl) where
  pub record Received (p : HttpPolicy) (x : Exchange) (r : Response) : Type 0 where
    pub rounds : ℕ
    pub transfer : Transferred p.cancellable x.round 0 rounds
    pub not_cancelled : (p.cancellable && x.cancelled_at_end) ≡ false
    pub done : x.message ≡ some curle_ok
    pub buffers : Buffers
    pub buffers_are : buffers ≡ receive_all (empty_buffers p) (parts_of x.round 0 rounds)
    pub body_is : r.body ≡ bytes_of buffers.body.contents
    pub headers_are : r.headers ≡ buffers.head.headers
    pub body_bounded : length r.body ≤ p.max_response_size
    pub status_is : (x.reported_status ≡ some r.status) × (bad_status r.status ≡ false)
    pub json : json_content_type x.reported_type ≡ true

  refusing :
      (bad : Bool) (e : HttpError) (y : Got) {r : Response}
      → (if bad then not_got e else y) ≡ got r
      → (bad ≡ false) × (y ≡ got r)
  refusing true e y h = absurd (cc h)
  refusing false e y h = (refl, h)

  is_curle_ok_lem : (c : CurlCode) → not (is_curle_ok c) ≡ false → c ≡ curle_ok
  is_curle_ok_lem curle_ok h = refl
  is_curle_ok_lem filesize_exceeded h = absurd (cc h)
  is_curle_ok_lem operation_timedout h = absurd (cc h)
  is_curle_ok_lem peer_failed_verification h = absurd (cc h)
  is_curle_ok_lem ssl_connect_error h = absurd (cc h)
  is_curle_ok_lem ssl_cacert_badfile h = absurd (cc h)
  is_curle_ok_lem ssl_certproblem h = absurd (cc h)
  is_curle_ok_lem other_failure h = absurd (cc h)

  Finished : Exchange → Buffers → Option ℤ → Response → Type 0
  Finished x b status r =
      (r.body ≡ bytes_of b.body.contents)
      × (r.headers ≡ b.head.headers)
      × (status ≡ some r.status)
      × (bad_status r.status ≡ false)
      × (json_content_type x.reported_type ≡ true)

  finish_status-Finished :
      (x : Exchange) (b : Buffers) (status : Option ℤ) (r : Response)
      → finish_status x b status ≡ got r
      → Finished x b status r
  unfolding finish_status finish_type Finished
  finish_status-Finished x b none r h = absurd (cc h)
  finish_status-Finished x b (some status) r h =
      let h1 = refusing (bad_status status) http_status _ h in
      let h2 = refusing (not (json_content_type x.reported_type)) content_type _ h1.1 in
      let h3 =
        refusing (is_none b.body.contents && not x.memory_at_end) http_out_of_memory _ h2.1 in
      let same : status ≡ r.status = cc h3.1 in
      (
        cc h3.1,
        cc h3.1,
        ap some same,
        subst (λ s. bad_status s ≡ false) same h1.0,
        ground (arith, h2.0),
      )

  finish_message-Finished :
      (x : Exchange) (b : Buffers) (message : Option CurlCode) (r : Response)
      → finish_message x b message ≡ got r
      → (message ≡ some curle_ok) × Finished x b x.reported_status r
  unfolding finish_message
  finish_message-Finished x b none r h = absurd (cc h)
  finish_message-Finished x b (some code) r h =
      let h1 = refusing (not (is_curle_ok code)) (transfer_error b code) _ h in
      (ap some (is_curle_ok_lem code h1.0), finish_status-Finished x b x.reported_status r h1.1)

  Polled-cases :
      (q : Polled) → ((b : Buffers) × (q ≡ transferred b)) ⊎ ((e : HttpError) × (q ≡ stopped e))
  Polled-cases (transferred b) = inl (b, refl)
  Polled-cases (stopped e) = inr (e, refl)

  finish-Received :
      (fuel : ℕ) (p : HttpPolicy) (x : Exchange) (q : Polled) (r : Response)
      → poll_loop fuel p.cancellable x.round 0 (empty_buffers p) ≡ some q
      → finish p x q ≡ got r
      → Received p x r
  unfolding finish Finished
  finish-Received fuel p x (stopped e) r l h = absurd (cc h)
  finish-Received fuel p x (transferred b) r l h =
      let h1 = refusing (p.cancellable && x.cancelled_at_end) interrupted _ h in
      let (done, (body, headers, status, good, json)) =
        finish_message-Finished x b x.message r h1.1 in
      let (k, t, eq) = poll_loop-Transferred fuel p.cancellable x.round 0 (empty_buffers p) b l in
      let fits =
        receive_all_fits (empty_buffers p) (parts_of x.round 0 k) p.max_response_size
          (refl, ground arith) in
      record {
        rounds = k;
        transfer = t;
        not_cancelled = h1.0;
        done = done;
        buffers = b;
        buffers_are = eq;
        body_is = body;
        headers_are = headers;
        body_bounded =
            subst (λ z. length z ≤ p.max_response_size)
              (sym (body ∙ ap (λ (z : Buffers). bytes_of z.body.contents) eq)) fits.1;
        status_is = (status, good);
        json = json;
      }

  run_request-Received :
      (fuel : ℕ) (p : HttpPolicy) (x : Exchange) (r : Response)
      → run_request fuel p x ≡ some (got r)
      → Received p x r
  unfolding run_request finish_polled
  run_request-Received fuel p x r h = elim (Option-cases (setup_error p x)) [
    | inr (e, s) ↦ absurd (cc (rw (s, run_request) at h))
    | inl s ↦ elim (Option-cases (poll_loop fuel p.cancellable x.round 0 (empty_buffers p))) [
      | inl l ↦ absurd (cc (rw (s, l, run_request, finish_polled) at h))
      | inr (q, l) ↦
          let same : finish p x q ≡ got r = cc (rw (s, l, run_request, finish_polled) at h) in
          finish-Received fuel p x q r l same
    ]
  ]

  Sent : HttpPolicy → Bytes → (curl.Handle → Exchange) → Response → Type 0
  Sent p url x r = (handle : curl.Handle) × Requested curl p url handle × Received p (x handle) r

  request_for-Sent :
      (fuel : ℕ) (url : Bytes) (p : HttpPolicy) (x : curl.Handle → Exchange) (o : Option Bytes)
      (r : Response)
      → p.allowed_host ≡ o
      → request_for curl fuel url p x o ≡ some (got r)
      → Sent p url x r
  unfolding request_for request_url Sent
  request_for-Sent fuel url p x none r a h = absurd (cc h)
  request_for-Sent fuel url p x (some allowed) r a h =
      elim (Bool-cases (is_empty allowed || bad_http_policy p)) [
        | inl e ↦ absurd (cc (rw e at h))
        | inr e ↦ elim (ParsedUrl-cases curl (validate_request_url curl (some url) p allowed)) [
          | inr (e', u) ↦ absurd (cc (rw (e, u, request_url) at h))
          | inl (handle, host, u) ↦ (
            handle,
            validate_request_url-Requested curl p url allowed a u,
            run_request-Received fuel p (x handle) r (rw (e, u, request_url) at h),
          )
        ]
      ]

  -- A response is handed on only if its URL is clean and its host is the configured one or an
  -- additional one, the transfer ran to its end with CURLE_OK and was never cancelled, the status is
  -- 2xx and the content type JSON. Its body and headers are what the callbacks made of the parts that
  -- were delivered, in their order, and the body is not larger than the limit.
  pub get_json-Received :
      (fuel : ℕ) (url : Bytes) (p : HttpPolicy) (x : curl.Handle → Exchange) {r : Response}
      → get_json curl fuel (some url) (some p) x ≡ some (got r)
      → (handle : curl.Handle) × Requested curl p url handle × Received p (x handle) r
  unfolding get_json Sent
  get_json-Received fuel url p x {r} h = request_for-Sent fuel url p x p.allowed_host r refl h
