-- ===== src/IssuerKey/Rules.antt =====
-- What holds behind a step, by how it ended, and the rule for a step behind another.
use pg_oauth_validator.IssuerKey.Context.{IssuerKeyError, Context, Step, continue, advance}
use pg_oauth_validator.SharedCache.Io.{CacheIo}
use pg_oauth_validator.Json.{Jansson}
use pg_oauth_validator.Base.{inl, inr, ◌⊎◌, ℕ, Bool-cases, ltb, int64_max, ◌-◌, ◌≡◌, ◌+◌, refl}

module _ (J : Jansson) (io : CacheIo) where
  abbrev pub Ends :
      {A : Type 0}
      → (A → Context J io → Type 0)
      → (IssuerKeyError → Context J io → Type 0)
      → Context J io × (IssuerKeyError ⊎ A)
      → Type 0
  Ends Q E (c, inl e) = E e c
  Ends Q E (c, inr a) = Q a c

  pub continue-Ends :
      {A B : Type 0} (R : A → Context J io → Type 0) (Q : B → Context J io → Type 0)
      (E : IssuerKeyError → Context J io → Type 0) (f : A → Step J io B)
      (x : Context J io × (IssuerKeyError ⊎ A))
      → Ends R E x
      → ((a : A) (c : Context J io) → R a c → Ends Q E (f a c))
      → Ends Q E (continue J io f x)
  continue-Ends R Q E f (c, inl e) h k = h
  continue-Ends R Q E f (c, inr a) h k = k a c h

  -- The rule with what the first step has returned.
  pub continue_known-Ends :
      {A B : Type 0} (R : A → Context J io → Type 0) (Q : B → Context J io → Type 0)
      (E : IssuerKeyError → Context J io → Type 0) (f : A → Step J io B)
      (x : Context J io × (IssuerKeyError ⊎ A))
      → Ends R E x
      → ((a : A) (c : Context J io) → x ≡ (c, inr a) → R a c → Ends Q E (f a c))
      → Ends Q E (continue J io f x)
  continue_known-Ends R Q E f (c, inl e) h k = h
  continue_known-Ends R Q E f (c, inr a) h k = k a c refl h

  -- Only the clock moves on.
  pub advance-Ends :
      (t : ℕ) (c : Context J io)
      → Ends (λ u d. d ≡ record c { now = c.now + t }) (λ e d. Unit {0}) (advance J io t c)
  unfolding advance
  advance-Ends t c = elim (Bool-cases (ltb (int64_max - c.now) t)) [
    | inl e ↦ rw e tt
    | inr e ↦ rw e refl
  ]
