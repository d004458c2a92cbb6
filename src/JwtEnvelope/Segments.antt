-- ===== src/JwtEnvelope/Segments.antt =====
-- The three segments of a token.
use pg_oauth_validator.JwtEnvelope.Parse.{three_segments, split_compact_jws, Segments}
use pg_oauth_validator.Base.{
  [], ◌∷◌, prepend, ℕ, List, Bytes, ◌++◌, ◌≡◌, refl, split, is_empty, Bool-cases, false, ◌==◌, ◌<◌,
  inl, length, inr, arith, ◌∙◌, ap, sym, some, ◌||◌, eq_of_some,
}

abbrev pub join : ℕ → List Bytes → Bytes
join c [] = []
join c (s ∷ []) = s
join c (s ∷ t ∷ ss) = s ++ (c ∷ join c (t ∷ ss))

join-prepend :
    (c b : ℕ) (xs : List Bytes) (y : Bytes) → join c (prepend b (y ∷ xs)) ≡ b ∷ join c (y ∷ xs)
join-prepend c b [] y = refl
join-prepend c b (x ∷ xs) y = refl

split-cons : (c : ℕ) (bs : Bytes) → (y : Bytes) × (ys : List Bytes) × (split c bs ≡ y ∷ ys)
unfolding split
split-cons c [] = ([], [], refl)
split-cons c (b ∷ bs) =
    let (y, ys, e) = split-cons c bs in
    elim (Bool-cases (b == c)) [
      | inl x ↦ ([], split c bs, rw x refl)
      | inr x ↦ (b ∷ y, ys, rw (x, e) refl)
    ]

join-cons-of :
    (c : ℕ) (xs ys : List Bytes) (y : Bytes) → xs ≡ y ∷ ys → join c ([] ∷ xs) ≡ c ∷ join c xs
join-cons-of c [] ys y h = absurd (cc h)
join-cons-of c (x ∷ xs) ys y h = refl

join-split : (c : ℕ) (bs : Bytes) → join c (split c bs) ≡ bs
unfolding split
join-split c [] = refl
join-split c (b ∷ bs) =
    let (y, ys, e) = split-cons c bs in
    let back = join-split c bs in
    elim (Bool-cases (b == c)) [
      | inl x ↦
          let same : b ≡ c = ground arith in
          rw x (join-cons-of c (split c bs) ys y e ∙ cc (same, back))
      | inr x ↦ rw (x, e) (join-prepend c b ys y ∙ ap (λ t. b ∷ t) (sym (ap (join c) e) ∙ back))
    ]

is_empty-false : (s : Bytes) → is_empty s ≡ false → 0 < length s
is_empty-false [] h = absurd (cc h)
is_empty-false (b ∷ bs) h = omega arith

three_segments-only :
    (xs : List Bytes) {s : Segments}
    → three_segments xs ≡ some s
    → xs ≡ s.header_segment ∷ s.payload_segment ∷ s.signature_segment ∷ []
unfolding three_segments
three_segments-only [] h = absurd (cc h)
three_segments-only (a ∷ []) h = absurd (cc h)
three_segments-only (a ∷ b ∷ []) h = absurd (cc h)
three_segments-only (a ∷ b ∷ c ∷ []) {s} h =
    elim (Bool-cases (is_empty a || is_empty b || is_empty c)) [
      | inl x ↦ absurd (cc (rw x at h))
      | inr x ↦
          let e = eq_of_some (rw x at h) in
          ap (λ t. t.header_segment ∷ t.payload_segment ∷ t.signature_segment ∷ []) e
    ]
three_segments-only (a ∷ b ∷ c ∷ d ∷ xs) h = absurd (cc h)

-- A token that is split is its three segments with dots between them.
pub split_compact_jws-join :
    (token : Bytes) {s : Segments}
    → split_compact_jws token ≡ some s
    → token ≡ s.header_segment ++ (b'.' ∷ s.payload_segment ++ (b'.' ∷ s.signature_segment))
unfolding split_compact_jws
split_compact_jws-join token {s} h =
    sym (join-split b'.' token) ∙ ap (join b'.') (three_segments-only (split b'.' token) h)
