-- ===== src/HttpTransport/Tests.antt =====
-- A request of the example's discovery document.
use pg_oauth_validator.Example.{curl, http_policy, discovery_url, discovery_document}
use pg_oauth_validator.HttpTransport.Bounded.{
  receive_all-body_bytes, body_bytes, Unhurt, append_header_value_limit, append_header_value_wraps,
}
use pg_oauth_validator.HttpTransport.Buffer.{
  Delivery, capture_header, capture_line, store_header, header_value, header_named, header,
  with_header, append_header_value, append_response, overflows, bytes_of, joined,
}
use pg_oauth_validator.HttpTransport.Loop.{get_json_returns}
use pg_oauth_validator.HttpTransport.Received.{Received, get_json-Received}
use pg_oauth_validator.HttpTransport.Request.{
  parse_url, parse_rest, parse_handle, parse_host, validate_request_url, validate_host,
  host_in_list, json_content_type, is_json_type,
}
use pg_oauth_validator.HttpTransport.Sound.{Requested}
use pg_oauth_validator.HttpTransport.Transfer.{
  Exchange, Round, Part, header_part, body_part, Response, Got, got, get_json, request_for,
  request_url, run_request, finish_polled, finish, finish_message, finish_status, finish_type,
  setup_error, poll_loop, receive_all, receive, bad_http_policy, curle_ok, empty_buffers,
}
use pg_oauth_validator.Url.Parts.{url_scheme, strip_proper, strip, authority, bad_octet}
use pg_oauth_validator.Base.{
  [], ◌∷◌, none, some, true, false, ◌≡◌, refl, size_minus, Bytes, text, ℕ, pos, bytes_eq, arith,
  List, ◌++◌, length, if◌then◌else◌, eq_ignore_case, ◌↔◌, replicate, ◌==◌, lower, ◌≤◌, ◌+◌, skip,
  length-replicate, skip_back, is_blank, before, behind,
}

abbrev part : Bytes → Delivery
part b = record { size = 1; count = length b; contents = b; memory = true }

abbrev working : Round
working = record {
  cancelled = false;
  parts = header_part (part (text "Age: 7")) ∷ [];
  perform_ok = true;
  running = true;
  poll_ok = true;
}

abbrev last_round : Round
last_round = record {
  cancelled = false;
  parts = body_part (part discovery_document) ∷ [];
  perform_ok = true;
  running = false;
  poll_ok = true;
}

abbrev rounds : ℕ → Round
rounds n = if n == 0 then working else last_round

abbrev exchange : Exchange
exchange = record {
  easy_ok = true;
  resolver_ok = true;
  header_list_ok = true;
  options_ok = true;
  multi_ok = true;
  add_ok = true;
  round = rounds;
  cancelled_at_end = false;
  message = some curle_ok;
  reported_status = some (pos 200);
  reported_type = some (text "application/json; charset=utf-8");
  memory_at_end = true;
}

abbrev response : Response
response = record {
  body = discovery_document;
  status = pos 200;
  headers = record { cache_control = none; date = none; expires = none; age = some (text "7") };
}

get_json_lem :
    get_json curl 2 (some discovery_url) (some http_policy) (λ h. exchange) ≡ some (got response)
unfolding get_json request_for request_url run_request finish_polled finish finish_message
    finish_status finish_type setup_error poll_loop receive_all receive bad_http_policy parse_url
    parse_rest parse_handle parse_host validate_request_url validate_host host_in_list
    json_content_type is_json_type url_scheme strip_proper strip authority bad_octet capture_header
    capture_line store_header header_value header_named header with_header append_header_value
    append_response overflows size_minus bytes_eq eq_ignore_case lower skip skip_back is_blank
    before behind
get_json_lem = refl

get_json-Received_example :
    (handle : Bytes) × Requested curl http_policy discovery_url handle
    × Received curl http_policy exchange response
get_json-Received_example =
    get_json-Received curl 2 discovery_url http_policy (λ h. exchange) get_json_lem

get_json_returns_example :
    (g : Got) × (get_json curl 10 (some discovery_url) (some http_policy) (λ h. exchange) ≡ some g)
    × (get_json curl 2 (some discovery_url) (some http_policy) (λ h. exchange) ≡ some g)
get_json_returns_example =
    get_json_returns curl discovery_url http_policy (λ h. exchange) 1 10 (λ h. refl) (omega arith)

abbrev parts : List Part
parts = body_part (part (text "ab")) ∷ body_part (part (text "c")) ∷ []

receive_all_lem : Unhurt (receive_all (empty_buffers http_policy) parts).body
unfolding receive_all receive append_response overflows size_minus
receive_all_lem = (refl, refl)

receive_all-body_bytes_example :
    Unhurt (empty_buffers http_policy).body
    × (bytes_of (receive_all (empty_buffers http_policy) parts).body.contents
        ≡ bytes_of (empty_buffers http_policy).body.contents ++ body_bytes parts)
receive_all-body_bytes_example =
    receive_all-body_bytes (empty_buffers http_policy) parts receive_all_lem

append_header_value_limit_example :
    (append_header_value (some (text "a")) (text "b") true ≡ some (joined (text "a") (text "b")))
    ↔ (length (joined (text "a") (text "b")) ≤ 4096)
append_header_value_limit_example =
    append_header_value_limit (text "a") (text "b") (omega arith) (omega arith)

abbrev long_value : Bytes
long_value = replicate 4096 b'a'

append_header_value_wraps_example :
    (append_header_value (some long_value) (text "bc") true ≡ some (joined long_value (text "bc")))
    × (length (joined long_value (text "bc")) ≡ 4097 + length (text "bc"))
append_header_value_wraps_example =
    append_header_value_wraps long_value (text "bc") (length-replicate {A = ℕ} 4096 b'a')
      (omega arith)
