-- ===== src/Identity/Decode.antt =====
-- A text that passes is the encoding of printable code points.
use pg_oauth_validator.Base64Url.Decoded.{AllBytes}
use pg_oauth_validator.Base.{
  [], ◌∷◌, none, some, Bool, ℕ, Bytes, Option, suc, ◌≡◌, if◌then◌else◌, ◌/◌, ◌≤◌, ◌⊎◌, true, false,
  ◌%◌, ◌++◌, ◌*◌, ap, Bool-cases, refl, ◌+◌, eq_of_some, leb, not, ◌&&◌, ◌==◌, inl, arith, inr, ltb,
  length, subst, ◌∙◌, ◌||◌, List, ◌<◌, all, Option-cases, zero,
}
use pg_oauth_validator.Identity.Utf8.{
  encode_utf8, printable, two_bytes, three_bytes, four_bytes, encode_utf8-1, encode_text,
}
use pg_oauth_validator.Identity.Build.{
  multibyte, continuation, lead, bad_codepoint, valid_utf8_loop,
}

unless :
    {A : Type 0} (x : Bool) (o : Option A) {a : A}
    → (if x then none else o) ≡ some a
    → (x ≡ false) × (o ≡ some a)
unless true o h = absurd (cc h)
unless false o h = (refl, h)

-- One round of the loop over continuation bytes.
continuation_round :
    (n cp : ℕ) (bs : Bytes) {x : ℕ × Bytes}
    → continuation (suc n) cp bs ≡ some x
    → (b : ℕ) × (r : Bytes) × (bs ≡ b ∷ r)
      × (b / 64 % 4 ≡ 2)
      × (continuation n (cp * 64 + b % 64) r ≡ some x)
unfolding continuation
continuation_round n cp [] h = absurd (cc h)
continuation_round n cp (b ∷ r) h =
    let t = unless (not (b / 64 % 4 == 2)) (continuation n (cp * 64 + b % 64) r) h in
    (b, r, refl, ground (arith, t.0), t.1)

continued :
    (n : ℕ) (x : Option (ℕ × Bytes)) {rest : Bytes}
    → elim x [ none ↦ none | some (c, r) ↦ if bad_codepoint n c then none else some r ] ≡ some rest
    → (c : ℕ) × (x ≡ some (c, rest)) × (bad_codepoint n c ≡ false)
continued n none h = absurd (cc h)
continued n (some (c, r)) h =
    let t = unless (bad_codepoint n c) (some r) h in
    (c, ap (λ y. some (c, y)) (eq_of_some t.1), t.0)

abbrev Lead : ℕ → ℕ → ℕ → ℕ → ℕ → Type 0
Lead first n bits low high = (lead first ≡ some (n, bits)) × (low ≤ first) × (first ≤ high)

lead-cases :
    (first : ℕ)
    → (lead first ≡ none)
      ⊎ Lead first 1 (first % 32) 0xc2 0xdf
      ⊎ Lead first 2 (first % 16) 0xe0 0xef
      ⊎ Lead first 3 (first % 8) 0xf0 0xf4
unfolding lead
lead-cases first = elim (Bool-cases (leb 0xc2 first && leb first 0xdf)) [
  | inl a ↦ inr (inl (rw a refl, ground (arith, a), ground (arith, a)))
  | inr a ↦ elim (Bool-cases (leb 0xe0 first && leb first 0xef)) [
    | inl b ↦ inr (inr (inl (rw (a, b) refl, ground (arith, b), ground (arith, b))))
    | inr b ↦ elim (Bool-cases (leb 0xf0 first && leb first 0xf4)) [
      | inl c ↦ inr (inr (inr (rw (a, b, c) refl, ground (arith, c), ground (arith, c))))
      | inr c ↦ inl (rw (a, b, c) refl)
    ]
  ]
]

-- The text begins with the encoding of a printable code point.
abbrev pub Begins : Bytes → Bytes → Type 0
Begins bs rest = (c : ℕ) × (printable c ≡ true) × (bs ≡ encode_utf8 c ++ rest)

module _ (first : ℕ) (bs rest : Bytes) (all : AllBytes bs) where
  one_more :
      Lead first 1 (first % 32) 0xc2 0xdf
      → multibyte first bs ≡ some rest
      → Begins (first ∷ bs) rest
  unfolding multibyte continuation
  one_more (l, low, high) h =
      let h' = unless (ltb (length bs) 1) _ (rw (l, multibyte) at h) in
      let (c, x, good) = continued 1 (continuation 1 (first % 32) bs) h'.1 in
      let (b, r, e, cont, done) = continuation_round 0 (first % 32) bs x in
      let same : (first % 32 * 64 + b % 64, r) ≡ (c, rest) = eq_of_some done in
      let ec : first % 32 * 64 + b % 64 ≡ c = ap (λ y. y.0) same in
      let er : r ≡ rest = ap (λ y. y.1) same in
      let range = (subst AllBytes e all).0 in
      let t = two_bytes first r b low high range cont (ap (bad_codepoint 1) ec ∙ good) in
      (
        first % 32 * 64 + b % 64,
        t.0,
        ap (λ y. first ∷ y) e ∙ t.1 ∙ ap (λ y. encode_utf8 (first % 32 * 64 + b % 64) ++ y) er,
      )

  two_more :
      Lead first 2 (first % 16) 0xe0 0xef
      → multibyte first bs ≡ some rest
      → Begins (first ∷ bs) rest
  unfolding multibyte continuation
  two_more (l, low, high) h =
      let h' = unless (ltb (length bs) 2) _ (rw (l, multibyte) at h) in
      let (c, x, good) = continued 2 (continuation 2 (first % 16) bs) h'.1 in
      let (b, r, e, cont, x') = continuation_round 1 (first % 16) bs x in
      let (d, r', e', cont', done) = continuation_round 0 (first % 16 * 64 + b % 64) r x' in
      let v : ℕ = (first % 16 * 64 + b % 64) * 64 + d % 64 in
      let same : (v, r') ≡ (c, rest) = eq_of_some done in
      let ec : v ≡ c = ap (λ y. y.0) same in
      let er : r' ≡ rest = ap (λ y. y.1) same in
      let split_bs : bs ≡ b ∷ d ∷ r' = e ∙ ap (λ y. b ∷ y) e' in
      let range = subst AllBytes split_bs all in
      let t =
        three_bytes first r' b d low high range.0 range.1.0 cont cont'
          (ap (bad_codepoint 2) ec ∙ good) in
      (v, t.0, ap (λ y. first ∷ y) split_bs ∙ t.1 ∙ ap (λ y. encode_utf8 v ++ y) er)

  three_more :
      Lead first 3 (first % 8) 0xf0 0xf4 → multibyte first bs ≡ some rest → Begins (first ∷ bs) rest
  unfolding multibyte continuation
  three_more (l, low, high) h =
      let h' = unless (ltb (length bs) 3) _ (rw (l, multibyte) at h) in
      let (c, x, good) = continued 3 (continuation 3 (first % 8) bs) h'.1 in
      let (b, r, e, cont, x') = continuation_round 2 (first % 8) bs x in
      let (d, r', e', cont', x'') = continuation_round 1 (first % 8 * 64 + b % 64) r x' in
      let (f, r'', e'', cont'', done) =
        continuation_round 0 ((first % 8 * 64 + b % 64) * 64 + d % 64) r' x'' in
      let v : ℕ = ((first % 8 * 64 + b % 64) * 64 + d % 64) * 64 + f % 64 in
      let same : (v, r'') ≡ (c, rest) = eq_of_some done in
      let ec : v ≡ c = ap (λ y. y.0) same in
      let er : r'' ≡ rest = ap (λ y. y.1) same in
      let split_bs : bs ≡ b ∷ d ∷ f ∷ r'' = e ∙ ap (λ y. b ∷ y) (e' ∙ ap (λ y. d ∷ y) e'') in
      let range = subst AllBytes split_bs all in
      let t =
        four_bytes first r'' b d f low high range.0 range.1.0 range.1.1.0 cont cont' cont''
          (ap (bad_codepoint 3) ec ∙ good) in
      (v, t.0, ap (λ y. first ∷ y) split_bs ∙ t.1 ∙ ap (λ y. encode_utf8 v ++ y) er)

  pub multibyte-Begins : multibyte first bs ≡ some rest → Begins (first ∷ bs) rest
  unfolding multibyte
  multibyte-Begins h = elim (lead-cases first) [
    | inl none_at ↦ absurd (cc (rw (none_at, multibyte) at h))
    | inr (inl l) ↦ one_more l h
    | inr (inr (inl l)) ↦ two_more l h
    | inr (inr (inr l)) ↦ three_more l h
  ]

All-behind : (xs ys : Bytes) → AllBytes (xs ++ ys) → AllBytes ys
All-behind [] ys h = h
All-behind (x ∷ xs) ys h = All-behind xs ys h.1

one_byte :
    (b : ℕ) (bs : Bytes)
    → leb b 0x7f ≡ true
    → (ltb b 0x20 || b == 0x7f) ≡ false
    → (printable b ≡ true) × (b ∷ bs ≡ encode_utf8 b ++ bs)
one_byte b bs h1 h2 =
    let low : b < 0x80 = ground arith in (ground arith, rw (encode_utf8-1 b low) refl)

-- The text is the encoding of printable code points.
abbrev pub IsText : Bytes → Type 0
IsText bs = (cs : List ℕ) × (all printable cs ≡ true) × (bs ≡ encode_text cs)

IsText-cons : (bs rest : Bytes) → Begins bs rest → IsText rest → IsText bs
IsText-cons bs rest (c, good, e) (cs, goods, e') =
    (c ∷ cs, ground (arith, good, goods), e ∙ ap (λ y. encode_utf8 c ++ y) e')

pub valid_utf8_loop-IsText :
    (fuel : ℕ) (bs : Bytes) → AllBytes bs → valid_utf8_loop fuel bs ≡ true → IsText bs
unfolding valid_utf8_loop
valid_utf8_loop-IsText fuel [] r h = ([], refl, refl)
valid_utf8_loop-IsText zero (b ∷ bs) r h = absurd (cc h)
valid_utf8_loop-IsText (suc fuel) (b ∷ bs) r h = elim (Bool-cases (leb b 0x7f)) [
  | inl small ↦
      let h' = rw small at h in
      elim (Bool-cases (ltb b 0x20 || b == 0x7f)) [
        | inl x ↦ absurd (cc (rw x at h'))
        | inr x ↦
            IsText-cons (b ∷ bs) bs (b, (one_byte b bs small x).0, (one_byte b bs small x).1)
              (valid_utf8_loop-IsText fuel bs r.1 (rw x at h'))
      ]
  | inr big ↦
      let h' = rw big at h in
      elim (Option-cases (multibyte b bs)) [
        | inl m ↦ absurd (cc (rw (m, valid_utf8_loop) at h'))
        | inr (rest, m) ↦
            let begins = multibyte-Begins b bs rest r.1 m in
            let behind_ok = All-behind (encode_utf8 begins.0) rest (subst AllBytes begins.2 r) in
            IsText-cons (b ∷ bs) rest begins
              (valid_utf8_loop-IsText fuel rest behind_ok (rw (m, valid_utf8_loop) at h'))
      ]
]
