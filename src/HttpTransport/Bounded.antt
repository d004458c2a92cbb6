-- ===== src/HttpTransport/Bounded.antt =====
-- The buffers of a response: how large they grow, and that nothing gets lost.
use mathlib.Core.List.{append-nil, append_assoc}
use pg_oauth_validator.HttpTransport.Buffer.{
  ResponseBuffer, Delivery, append_response, bytes_of, delivered, append_header_value, joined,
  separator,
}
use pg_oauth_validator.HttpTransport.Transfer.{
  Part, header_part, body_part, Buffers, receive, receive_all,
}
use pg_oauth_validator.Base.{
  [], ◌∷◌, some, ℕ, length, size_minus, List, ◌≡◌, Bytes, ◌≤◌, arith, ◌++◌, false, ◌+◌, ◌*◌,
  length-append, sym, length-take, ◌∙◌, ap, uint64_max, ◌<◌, true, ◌↔◌,
}

abbrev pub body_length : ResponseBuffer → ℕ
body_length b = length (bytes_of b.contents)

length-delivered : (d : Delivery) → length (delivered d) ≤ d.size * d.count
length-delivered d = omega (arith, length-take (d.size * d.count) d.contents)

abbrev BodyFits : ResponseBuffer → ℕ → Type 0
BodyFits b m = (b.maximum ≡ m) × (body_length b ≤ m)

append_response_fits :
    (b : ResponseBuffer) (d : Delivery) (m : ℕ) → BodyFits b m → BodyFits (append_response b d).0 m
unfolding append_response size_minus
append_response_fits b d m h =
    ground (arith, length-append (bytes_of b.contents) (delivered d), length-delivered d)

receive_fits :
    (b : Buffers) (part : Part) (m : ℕ) → BodyFits b.body m → BodyFits (receive b part).body m
unfolding receive
receive_fits b (header_part d) m h = h
receive_fits b (body_part d) m h = append_response_fits b.body d m h

pub receive_all_fits :
    (b : Buffers) (parts : List Part) (m : ℕ)
    → (b.body.maximum ≡ m) × (body_length b.body ≤ m)
    → ((receive_all b parts).body.maximum ≡ m) × (body_length (receive_all b parts).body ≤ m)
unfolding receive_all
receive_all_fits b [] m h = h
receive_all_fits b (part ∷ parts) m h =
    receive_all_fits (receive b part) parts m (receive_fits b part m h)

-- What the body parts of a transfer hold, in order.
unfoldable pub body_bytes : List Part → Bytes
body_bytes [] = []
body_bytes (header_part d ∷ parts) = body_bytes parts
body_bytes (body_part d ∷ parts) = delivered d ++ body_bytes parts

abbrev pub Unhurt : ResponseBuffer → Type 0
Unhurt b = (b.too_large ≡ false) × (b.out_of_memory ≡ false)

append_response_whole :
    (b : ResponseBuffer) (d : Delivery)
    → Unhurt (append_response b d).0
    → Unhurt b × (bytes_of (append_response b d).0.contents ≡ bytes_of b.contents ++ delivered d)
unfolding append_response
append_response_whole b d h = ground arith

-- If the buffer is marked neither too large nor out of memory at the end, then the body is all the
-- body parts that libcurl delivered, in their order, behind what was there before.
pub receive_all-body_bytes :
    (b : Buffers) (parts : List Part)
    → Unhurt (receive_all b parts).body
    → Unhurt b.body
      × (bytes_of (receive_all b parts).body.contents
          ≡ bytes_of b.body.contents ++ body_bytes parts)
unfolding receive_all receive body_bytes
receive_all-body_bytes b [] h = (h, sym (append-nil _))
receive_all-body_bytes b (header_part d ∷ parts) h =
    receive_all-body_bytes (receive b (header_part d)) parts h
receive_all-body_bytes b (body_part d ∷ parts) h =
    let (u, e) = receive_all-body_bytes (receive b (body_part d)) parts h in
    let (v, f) = append_response_whole b.body d u in
    (
      v,
      e
          ∙ ap (λ (z : Bytes). z ++ body_bytes parts) f
          ∙ append_assoc (bytes_of b.body.contents) (delivered d) (body_bytes parts),
    )

length-joined :
    (old value : Bytes) → length (joined old value) ≡ length old + separator old + length value
length-joined [] value = omega arith
length-joined (b ∷ bs) value = omega (arith, length-append bs (b',' ∷ value))

separator_le : (old : Bytes) → (separator old ≤ 1) × (separator old ≤ length old)
separator_le [] = ground arith
separator_le (b ∷ bs) = ground arith

-- To a header value of fewer than 4096 bytes a further one is appended, behind a comma unless the
-- first is empty, exactly if the whole is then at most 4096 bytes long.
pub append_header_value_limit :
    (old value : Bytes)
    → length old < 4096
    → length value ≤ uint64_max
    → (append_header_value (some old) value true ≡ some (joined old value))
      ↔ (length (joined old value) ≤ 4096)
unfolding append_header_value size_minus
append_header_value_limit old value l h =
    let j = length-joined old value in
    let s = separator_le old in (ground (arith, j, s), ground (arith, j, s))

-- But behind a value of exactly 4096 bytes the space that is left, 4096 - 4096 - 1, wraps around to
-- the largest size_t: a further value of any size is appended, and the whole is longer than 4096.
pub append_header_value_wraps :
    (old value : Bytes)
    → length old ≡ 4096
    → length value ≤ uint64_max
    → (append_header_value (some old) value true ≡ some (joined old value))
      × (length (joined old value) ≡ 4097 + length value)
unfolding append_header_value size_minus
append_header_value_wraps old value e h =
    let j = length-joined old value in
    let s = separator_le old in (ground (arith, j, s), ground (arith, j, s))
