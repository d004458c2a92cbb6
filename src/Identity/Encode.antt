-- ===== src/Identity/Encode.antt =====
-- The encoding of printable code points passes.
use pg_oauth_validator.Base.{
  ◌∷◌, some, ℕ, ◌≤◌, ◌<◌, Bytes, ◌+◌, suc, ◌≡◌, ◌/◌, ◌*◌, ltb, ap, true, leb, ◌%◌, length, false,
  arith, refl, ◌==◌, ◌∙◌, ◌||◌, [], List, ◌++◌, all, Bool-cases, inl, length-append, &&-eq-true,
  ltb→lt, inr, zero,
}
use pg_oauth_validator.Identity.Utf8.{
  printable, encode_utf8, encode_text, encode_utf8-1, encode_utf8-2, encode_utf8-3, encode_utf8-4,
}
use pg_oauth_validator.Identity.Build.{
  multibyte, lead, continuation, bad_codepoint, valid_utf8_loop,
}

lead-2 : (c : ℕ) → 0x80 ≤ c → c < 0x800 → lead (192 + c / 64) ≡ some (1, c / 64)
unfolding lead
lead-2 c l h = let e : (192 + c / 64) % 32 ≡ c / 64 = omega arith in rw e (ground arith)

lead-3 : (c : ℕ) → c < 0x10000 → lead (224 + c / 4096) ≡ some (2, c / 4096)
unfolding lead
lead-3 c h = let e : (224 + c / 4096) % 16 ≡ c / 4096 = omega arith in rw e (ground arith)

lead-4 : (c : ℕ) → c ≤ 0x10ffff → lead (240 + c / 262144) ≡ some (3, c / 262144)
unfolding lead
lead-4 c h = let e : (240 + c / 262144) % 8 ≡ c / 262144 = omega arith in rw e (ground arith)

-- A continuation byte is taken in.
continuation_of :
    (n cp v : ℕ) (r : Bytes)
    → v < 64
    → continuation (suc n) cp ((128 + v) ∷ r) ≡ continuation n (cp * 64 + v) r
unfolding continuation
continuation_of n cp v r h =
    let e : (128 + v) % 64 ≡ v = omega arith in
    let f : ((128 + v) / 64 % 4 == 2) ≡ true = ground arith in rw (e, f) refl

after_lead :
    (first n bits c : ℕ) (bs rest : Bytes)
    → lead first ≡ some (n, bits)
    → ltb (length bs) n ≡ false
    → continuation n bits bs ≡ some (c, rest)
    → bad_codepoint n c ≡ false
    → multibyte first bs ≡ some rest
unfolding multibyte
after_lead first n bits c bs rest l s k g = rw (l, multibyte, s, k, g) refl

done : (cp c : ℕ) (r : Bytes) → cp ≡ c → continuation 0 cp r ≡ some (c, r)
unfolding continuation
done cp c r e = ap (λ y. some (y, r)) e

multibyte-2 :
    (c : ℕ) (r : Bytes)
    → 0x80 ≤ c
    → c < 0x800
    → printable c ≡ true
    → multibyte (192 + c / 64) ((128 + c % 64) ∷ r) ≡ some r
unfolding bad_codepoint
multibyte-2 c r l h p =
    after_lead (192 + c / 64) 1 (c / 64) c _ r (lead-2 c l h) (ground arith)
      (continuation_of 0 (c / 64) (c % 64) r (omega arith) ∙ done _ c r (omega arith))
      (ground arith)

multibyte-3 :
    (c : ℕ) (r : Bytes)
    → 0x800 ≤ c
    → c < 0x10000
    → printable c ≡ true
    → multibyte (224 + c / 4096) ((128 + c / 64 % 64) ∷ (128 + c % 64) ∷ r) ≡ some r
unfolding bad_codepoint
multibyte-3 c r l h p =
    after_lead (224 + c / 4096) 2 (c / 4096) c _ r (lead-3 c h) (ground arith)
      (continuation_of 1 (c / 4096) (c / 64 % 64) ((128 + c % 64) ∷ r) (omega arith)
        ∙ continuation_of 0 (c / 4096 * 64 + c / 64 % 64) (c % 64) r (omega arith)
        ∙ done _ c r (omega arith))
      (ground arith)

multibyte-4 :
    (c : ℕ) (r : Bytes)
    → 0x10000 ≤ c
    → printable c ≡ true
    → multibyte
        (240 + c / 262144)
        ((128 + c / 4096 % 64) ∷ (128 + c / 64 % 64) ∷ (128 + c % 64) ∷ r)
      ≡ some r
unfolding bad_codepoint
multibyte-4 c r l p =
    after_lead (240 + c / 262144) 3 (c / 262144) c _ r (lead-4 c (ground arith)) (ground arith)
      (continuation_of 2 (c / 262144) (c / 4096 % 64) ((128 + c / 64 % 64) ∷ (128 + c % 64) ∷ r)
          (omega arith)
        ∙ continuation_of 1 (c / 262144 * 64 + c / 4096 % 64) (c / 64 % 64) ((128 + c % 64) ∷ r)
            (omega arith)
        ∙ continuation_of 0 ((c / 262144 * 64 + c / 4096 % 64) * 64 + c / 64 % 64) (c % 64) r
            (omega arith)
        ∙ done _ c r (omega arith))
      (ground arith)

next_multibyte :
    (fuel first : ℕ) (bs rest : Bytes)
    → 0x80 ≤ first
    → multibyte first bs ≡ some rest
    → valid_utf8_loop (suc fuel) (first ∷ bs) ≡ valid_utf8_loop fuel rest
unfolding valid_utf8_loop
next_multibyte fuel first bs rest h e =
    let big : leb first 0x7f ≡ false = ground arith in rw (big, e, valid_utf8_loop) refl

next_ascii :
    (fuel c : ℕ) (bs : Bytes)
    → c < 0x80
    → printable c ≡ true
    → valid_utf8_loop (suc fuel) (c ∷ bs) ≡ valid_utf8_loop fuel bs
unfolding valid_utf8_loop
next_ascii fuel c bs h p =
    let small : leb c 0x7f ≡ true = ground arith in
    let clean : (ltb c 0x20 || c == 0x7f) ≡ false = ground arith in rw (small, clean) refl

abbrev Passes : ℕ → Bytes → Bytes → Type 0
Passes fuel bs r =
    length bs ≤ suc fuel
    → (fuel' : ℕ) × (length r ≤ fuel') × (valid_utf8_loop (suc fuel) bs ≡ valid_utf8_loop fuel' r)

passes : (fuel c : ℕ) (r : Bytes) → printable c ≡ true → Passes fuel (encode_utf8 c ++ r) r
passes fuel c r p = elim (Bool-cases (ltb c 0x80)) [
  | inl a ↦
      rw (encode_utf8-1 c (ltb→lt c 0x80 a))
        (λ l. (fuel, omega arith, next_ascii fuel c r (ltb→lt c 0x80 a) p))
  | inr a ↦
      let low : 0x80 ≤ c = ground arith in
      elim (Bool-cases (ltb c 0x800)) [
        | inl b ↦
            let h = ltb→lt c 0x800 b in
            rw (encode_utf8-2 c low h) (λ l. (
              fuel,
              omega arith,
              next_multibyte fuel (192 + c / 64) _ r (omega arith) (multibyte-2 c r low h p),
            ))
        | inr b ↦
            let low' : 0x800 ≤ c = ground arith in
            elim (Bool-cases (ltb c 0x10000)) [
              | inl d ↦
                  let h = ltb→lt c 0x10000 d in
                  rw (encode_utf8-3 c low' h) (λ l. (
                    fuel,
                    omega arith,
                    next_multibyte fuel (224 + c / 4096) _ r (omega arith)
                        (multibyte-3 c r low' h p),
                  ))
              | inr d ↦
                  let low'' : 0x10000 ≤ c = ground arith in
                  rw (encode_utf8-4 c low'') (λ l. (
                    fuel,
                    omega arith,
                    next_multibyte fuel (240 + c / 262144) _ r (omega arith)
                        (multibyte-4 c r low'' p),
                  ))
            ]
      ]
]

encode_utf8-nonempty : (c : ℕ) → 0 < length (encode_utf8 c)
encode_utf8-nonempty c = ground arith

empty_passes : (fuel : ℕ) → valid_utf8_loop fuel [] ≡ true
unfolding valid_utf8_loop
empty_passes zero = refl
empty_passes (suc fuel) = refl

pub encode_text-passes :
    (cs : List ℕ) (fuel : ℕ)
    → all printable cs ≡ true
    → length (encode_text cs) ≤ fuel
    → valid_utf8_loop fuel (encode_text cs) ≡ true
encode_text-passes [] fuel h l = empty_passes fuel
encode_text-passes (c ∷ cs) zero h l =
    absurd
      (omega (arith, encode_utf8-nonempty c, length-append (encode_utf8 c) (encode_text cs), l))
encode_text-passes (c ∷ cs) (suc fuel) h l =
    let (p, ps) = &&-eq-true (printable c) (all printable cs) h in
    let (fuel', l', e) = passes fuel c (encode_text cs) p l in e ∙ encode_text-passes cs fuel' ps l'
