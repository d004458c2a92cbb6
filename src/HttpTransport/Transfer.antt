-- ===== src/HttpTransport/Transfer.antt =====
-- `pg_oauth_http_get_json`. What libcurl does in one request is an `Exchange`.
use pg_oauth_validator.HttpFreshness.Calculate.{Headers}
use pg_oauth_validator.Url.Parts.{CurlUrl}
use pg_oauth_validator.HttpTransport.Buffer.{
  ResponseBuffer, HeaderBuffer, Delivery, append_response, capture_header, bytes_of,
}
use pg_oauth_validator.HttpTransport.Request.{
  HttpError, http_bad_argument, http_timeout, interrupted, tls_failure, response_too_large,
  http_status, content_type, network_failure, http_out_of_memory, HttpPolicy, json_content_type,
  ParsedUrl, parsed_url, unparsed, validate_request_url,
}
use pg_oauth_validator.Base.{
  [], ◌∷◌, none, some, ℕ, zero, suc, ℤ, pos, negsuc, Bool, Option, List, Bytes, ◌==◌, if◌then◌else◌,
  ◌||◌, ◌&&◌, true, false, not, ltb_ℤ, is_empty, is_none,
}

pub data CurlCode : Type 0 where
  curle_ok filesize_exceeded operation_timedout peer_failed_verification ssl_connect_error :
      CurlCode
  ssl_cacert_badfile ssl_certproblem other_failure : CurlCode

pub data Part : Type 0 where
  header_part body_part : Delivery → Part

-- One pass of the loop: the answer of `cancel_requested`, the callbacks that `curl_multi_perform`
-- makes, its result, whether the transfer still runs, and the result of `curl_multi_poll`.
pub record Round : Type 0 where
  pub cancelled : Bool
  pub parts : List Part
  pub perform_ok : Bool
  pub running : Bool
  pub poll_ok : Bool

-- The results of libcurl in one request. `resolver_ok` is the test on curl_version_info,
-- `options_ok` that each option can be set; `message` is `none` unless a transfer is done;
-- `reported_status` and `reported_type` are `none` where curl_easy_getinfo fails, or for a NULL type.
pub record Exchange : Type 0 where
  pub easy_ok : Bool
  pub resolver_ok : Bool
  pub header_list_ok : Bool
  pub options_ok : Bool
  pub multi_ok : Bool
  pub add_ok : Bool
  pub round : ℕ → Round
  pub cancelled_at_end : Bool
  pub message : Option CurlCode
  pub reported_status : Option ℤ
  pub reported_type : Option Bytes
  pub memory_at_end : Bool

pub record Buffers : Type 0 where
  pub body : ResponseBuffer
  pub head : HeaderBuffer

unfoldable pub receive : Buffers → Part → Buffers
receive b (header_part d) = record b { head = (capture_header b.head d).0 }
receive b (body_part d) = record b { body = (append_response b.body d).0 }

unfoldable pub receive_all : Buffers → List Part → Buffers
receive_all b [] = b
receive_all b (part ∷ parts) = receive_all (receive b part) parts

pub data Polled : Type 0 where
  transferred : Buffers → Polled
  stopped : HttpError → Polled

-- The loop, from round `n` on; `none` if it still runs after `fuel` rounds.
unfoldable pub poll_loop : ℕ → Bool → (ℕ → Round) → ℕ → Buffers → Option Polled
poll_loop zero cancellable round n b = none
poll_loop (suc fuel) cancellable round n b =
    let r = round n in
    let received = receive_all b r.parts in
    let next = poll_loop fuel cancellable round (suc n) received in
    if cancellable && r.cancelled
    then some (stopped interrupted)
    else if not r.perform_ok
    then some (stopped network_failure)
    else if not r.running
    then some (transferred received)
    else if not r.poll_ok
    then some (stopped network_failure)
    else next

pub record Response : Type 0 where
  pub body : Bytes
  pub status : ℤ
  pub headers : Headers

-- A response that is not OK is cleared.
pub data Got : Type 0 where
  got : Response → Got
  not_got : HttpError → Got

unfoldable pub tls_code : CurlCode → Bool
tls_code peer_failed_verification = true
tls_code ssl_connect_error = true
tls_code ssl_cacert_badfile = true
tls_code ssl_certproblem = true
tls_code _ = false

abbrev pub is_filesize_exceeded : CurlCode → Bool
is_filesize_exceeded filesize_exceeded = true
is_filesize_exceeded _ = false

abbrev pub is_timeout : CurlCode → Bool
is_timeout operation_timedout = true
is_timeout _ = false

abbrev pub is_curle_ok : CurlCode → Bool
is_curle_ok curle_ok = true
is_curle_ok _ = false

-- The error of a transfer that did not end with CURLE_OK.
unfoldable pub transfer_error : Buffers → CurlCode → HttpError
transfer_error b code =
    if b.body.too_large || b.head.too_large || is_filesize_exceeded code
    then response_too_large
    else if b.body.out_of_memory || b.head.out_of_memory
    then http_out_of_memory
    else if is_timeout code
    then http_timeout
    else if tls_code code
    then tls_failure
    else network_failure

abbrev pub bad_status : ℤ → Bool
bad_status status = ltb_ℤ status (pos 200) || not (ltb_ℤ status (pos 300))

unfoldable pub finish_type : Exchange → Buffers → ℤ → Got
finish_type x b status =
    if not (json_content_type x.reported_type)
    then not_got content_type
    else if is_none b.body.contents && not x.memory_at_end
    then not_got http_out_of_memory
    else got (record { body = bytes_of b.body.contents; status = status; headers = b.head.headers })

unfoldable pub finish_status : Exchange → Buffers → Option ℤ → Got
finish_status x b none = not_got http_status
finish_status x b (some status) =
    if bad_status status then not_got http_status else finish_type x b status

unfoldable pub finish_message : Exchange → Buffers → Option CurlCode → Got
finish_message x b none = not_got network_failure
finish_message x b (some code) =
    if not (is_curle_ok code)
    then not_got (transfer_error b code)
    else finish_status x b x.reported_status

unfoldable pub finish : HttpPolicy → Exchange → Polled → Got
finish p x (stopped e) = not_got e
finish p x (transferred b) =
    if p.cancellable && x.cancelled_at_end
    then not_got interrupted
    else finish_message x b x.message

abbrev pub empty_buffers : HttpPolicy → Buffers
empty_buffers p = record {
  body = record {
    contents = none;
    maximum = p.max_response_size;
    too_large = false;
    out_of_memory = false;
  };
  head = record {
    headers = record { cache_control = none; date = none; expires = none; age = none };
    too_large = false;
    out_of_memory = false;
  };
}

-- The steps before the loop that can fail.
unfoldable pub setup_error : HttpPolicy → Exchange → Option HttpError
setup_error p x =
    if not x.easy_ok
    then some http_out_of_memory
    else if p.cancellable && not x.resolver_ok
    then some network_failure
    else if not x.header_list_ok
    then some http_out_of_memory
    else if not x.options_ok
    then some network_failure
    else if not x.multi_ok
    then some http_out_of_memory
    else if not x.add_ok
    then some network_failure
    else none

abbrev pub not_positive : ℤ → Bool
not_positive (pos n) = n == 0
not_positive (negsuc n) = true

unfoldable pub bad_http_policy : HttpPolicy → Bool
bad_http_policy p =
    p.max_url_size == 0
    || p.max_response_size == 0
    || not_positive p.connect_timeout_ms
    || not_positive p.total_timeout_ms
    || ltb_ℤ p.total_timeout_ms p.connect_timeout_ms

unfoldable pub finish_polled : HttpPolicy → Exchange → Option Polled → Option Got
finish_polled p x none = none
finish_polled p x (some polled) = some (finish p x polled)

unfoldable pub run_request : ℕ → HttpPolicy → Exchange → Option Got
run_request fuel p x = elim (setup_error p x) [
  | some e ↦ some (not_got e)
  | none ↦ finish_polled p x (poll_loop fuel p.cancellable x.round 0 (empty_buffers p))
]

module _ (curl : CurlUrl) where
  unfoldable pub request_url :
      ℕ → HttpPolicy → (curl.Handle → Exchange) → ParsedUrl curl → Option Got
  request_url fuel p x (unparsed e) = some (not_got e)
  request_url fuel p x (parsed_url url host) = run_request fuel p (x url)

  unfoldable pub request_for :
      ℕ → Bytes → HttpPolicy → (curl.Handle → Exchange) → Option Bytes → Option Got
  request_for fuel url p x none = some (not_got http_bad_argument)
  request_for fuel url p x (some allowed) =
      if is_empty allowed || bad_http_policy p
      then some (not_got http_bad_argument)
      else request_url fuel p x (validate_request_url curl (some url) p allowed)

  -- `none` if the loop still runs after `fuel` rounds.
  unfoldable pub get_json :
      ℕ → Option Bytes → Option HttpPolicy → (curl.Handle → Exchange) → Option Got
  get_json fuel none p x = some (not_got http_bad_argument)
  get_json fuel (some url) none x = some (not_got http_bad_argument)
  get_json fuel (some url) (some p) x = request_for fuel url p x p.allowed_host
