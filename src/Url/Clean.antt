-- ===== src/Url/Clean.antt =====
-- The URLs that are safe to fetch.
use pg_oauth_validator.Url.Parts.{
  UrlScheme, behind_scheme, unknown_scheme, insecure_scheme, url_scheme, CurlUrl, bad_octet,
  authority, strip, strip_proper,
}
use pg_oauth_validator.Base.{
  [], ◌∷◌, none, some, ℕ, Bool, Bytes, ◌==◌, true, false, text, any, All, ◌≡◌, ◌≢◌, ◌++◌, ◌≤◌, ◌<◌,
  length, arith, ◌⊎◌, is_empty, Option, Option-cases, inl, is_none, inr, ◌∙◌, refl, ap, Bool-cases,
}

-- A printable ASCII byte that a URL may hold.
abbrev pub Printable : ℕ → Type 0
Printable b = (32 < b) × (b < 127) × (b ≢ 92)

-- The scheme, which is https unless http is allowed.
abbrev pub Scheme : Bool → Bytes → Type 0
Scheme allow_http s = (s ≡ text "https://") ⊎ ((s ≡ text "http://") × (allow_http ≡ true))

module _ (curl : CurlUrl) where
  pub record CleanUrl (allow_http : Bool) (maximum : ℕ) (value : Bytes) : Type 0 where
    pub bounded : (0 < length value) × (length value ≤ maximum)
    pub printable : All Printable value
    pub no_fragment : any (λ b. b == b'#') value ≡ false
    pub scheme : Bytes
    pub rest : Bytes
    pub scheme_is : Scheme allow_http scheme
    pub value_is : value ≡ scheme ++ rest
    pub has_authority : authority rest ≢ []
    pub no_user_info : any (λ b. b == b'@') (authority rest) ≡ false
    pub handle : curl.Handle
    pub host : Bytes
    pub parsed : curl.url_set value ≡ some handle
    pub host_is : (curl.host handle ≡ some host) × (host ≢ [])
    pub parts :
        (curl.user handle ≡ none) × (curl.password handle ≡ none) × (curl.fragment handle ≡ none)

pub any_bad-Printable : (value : Bytes) → any bad_octet value ≡ false → All Printable value
unfolding bad_octet
any_bad-Printable [] h = tt
any_bad-Printable (b ∷ bs) h =
    let e : any bad_octet bs ≡ false = ground arith in
    ((ground arith, ground arith, ground arith), any_bad-Printable bs e)

pub append_of_strip : (p value rest : Bytes) → strip p value ≡ some rest → value ≡ p ++ rest
unfolding strip
append_of_strip [] value rest h = cc
append_of_strip (p ∷ ps) [] rest h = absurd (cc h)
append_of_strip (p ∷ ps) (b ∷ bs) rest h = ground (arith, append_of_strip ps bs rest)

strip_of_proper :
    (p value rest : Bytes) → strip_proper p value ≡ some rest → strip p value ≡ some rest
unfolding strip_proper
strip_of_proper p value rest h = ground arith

pub append_of_strip_proper :
    (p value rest : Bytes) → strip_proper p value ≡ some rest → value ≡ p ++ rest
append_of_strip_proper p value rest h =
    append_of_strip p value rest (strip_of_proper p value rest h)

pub nonempty : (bs : Bytes) → is_empty bs ≡ false → bs ≢ []
nonempty [] h e = absurd (cc h)
nonempty (b ∷ bs) h e = absurd (cc e)

pub is_none-none : (o : Option Bytes) → is_none o ≡ true → o ≡ none
is_none-none none h = refl
is_none-none (some b) h = absurd (cc h)

abbrev pub Behind : Bytes → Bool → Bytes → Type 0
Behind value allow_http rest =
    (scheme : Bytes) × Scheme allow_http scheme × (value ≡ scheme ++ rest)

pub url_scheme-Behind :
    (value : Bytes) (allow_http : Bool) (rest : Bytes)
    → url_scheme value allow_http ≡ behind_scheme rest
    → Behind value allow_http rest
unfolding url_scheme
url_scheme-Behind value allow_http rest h =
    elim (Option-cases (strip_proper (text "https://") value)) [
      | inr (r, e) ↦
          let same : r ≡ rest = cc (rw (e, url_scheme) at h) in
          (
            text "https://",
            inl refl,
            append_of_strip_proper (text "https://") value rest (e ∙ ap some same),
          )
      | inl e ↦ elim (Option-cases (strip_proper (text "http://") value)) [
        | inl e' ↦ absurd (cc (rw (e, e', url_scheme) at h))
        | inr (r, e') ↦ elim (Bool-cases allow_http) [
          | inr a ↦ absurd (cc (rw (e, e', a, url_scheme) at h))
          | inl a ↦
              let same : r ≡ rest = cc (rw (e, e', a, url_scheme) at h) in
              (
                text "http://",
                inr (refl, a),
                append_of_strip_proper (text "http://") value rest (e' ∙ ap some same),
              )
        ]
      ]
    ]

pub UrlScheme-cases :
    (s : UrlScheme)
    → ((rest : Bytes) × (s ≡ behind_scheme rest)) ⊎ (s ≡ unknown_scheme) ⊎ (s ≡ insecure_scheme)
UrlScheme-cases (behind_scheme rest) = inl (rest, refl)
UrlScheme-cases unknown_scheme = inr (inl refl)
UrlScheme-cases insecure_scheme = inr (inr refl)
