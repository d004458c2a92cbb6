-- ===== src/CacheKey/Width.antt =====
-- The fixed-width encodings lose nothing.
use pg_oauth_validator.Base.{
  [], ◌∷◌, ℕ, Bytes, ◌<◌, ◌≡◌, length, ◌^◌, ◌/◌, ◌++◌, refl, ◌%◌, arith, ◌∙◌, sym,
}
use pg_oauth_validator.CacheKey.Build.{u32_bytes, u64_bytes}

pub u32_bytes-injective : (a b : ℕ) → a < 2 ^ 32 → b < 2 ^ 32 → u32_bytes a ≡ u32_bytes b → a ≡ b
unfolding u32_bytes
u32_bytes-injective a b ha hb h =
    let e3 : a / 2 ^ 24 % 256 ≡ b / 2 ^ 24 % 256 = cc h in
    let e2 : a / 2 ^ 16 % 256 ≡ b / 2 ^ 16 % 256 = cc h in
    let e1 : a / 2 ^ 8 % 256 ≡ b / 2 ^ 8 % 256 = cc h in
    let e0 : a % 256 ≡ b % 256 = cc h in omega arith

u64_bytes_lem : (a : ℕ) → u64_bytes a ≡ u32_bytes (a / 2 ^ 32 % 2 ^ 32) ++ u32_bytes (a % 2 ^ 32)
unfolding u32_bytes u64_bytes
u64_bytes_lem a =
    let e7 : a / 2 ^ 56 % 256 ≡ a / 2 ^ 32 % 2 ^ 32 / 2 ^ 24 % 256 = omega arith in
    let e6 : a / 2 ^ 48 % 256 ≡ a / 2 ^ 32 % 2 ^ 32 / 2 ^ 16 % 256 = omega arith in
    let e5 : a / 2 ^ 40 % 256 ≡ a / 2 ^ 32 % 2 ^ 32 / 2 ^ 8 % 256 = omega arith in
    let e4 : a / 2 ^ 32 % 256 ≡ a / 2 ^ 32 % 2 ^ 32 % 256 = omega arith in
    let e3 : a / 2 ^ 24 % 256 ≡ a % 2 ^ 32 / 2 ^ 24 % 256 = omega arith in
    let e2 : a / 2 ^ 16 % 256 ≡ a % 2 ^ 32 / 2 ^ 16 % 256 = omega arith in
    let e1 : a / 2 ^ 8 % 256 ≡ a % 2 ^ 32 / 2 ^ 8 % 256 = omega arith in
    let e0 : a % 256 ≡ a % 2 ^ 32 % 256 = omega arith in cc (e7, e6, e5, e4, e3, e2, e1, e0)

pub append_cancel : (x y r s : Bytes) → length x ≡ length y → x ++ r ≡ y ++ s → (x ≡ y) × (r ≡ s)
append_cancel [] [] r s l h = (refl, h)
append_cancel [] (b ∷ y) r s l h = absurd (omega arith)
append_cancel (a ∷ x) [] r s l h = absurd (omega arith)
append_cancel (a ∷ x) (b ∷ y) r s l h =
    let t = append_cancel x y r s (omega arith) (cc h) in let e : a ≡ b = cc h in (cc (e, t.0), t.1)

pub length-u32_bytes : (a : ℕ) → length (u32_bytes a) ≡ 4
unfolding u32_bytes
length-u32_bytes a = refl

pub u64_bytes-injective : (a b : ℕ) → a < 2 ^ 64 → b < 2 ^ 64 → u64_bytes a ≡ u64_bytes b → a ≡ b
u64_bytes-injective a b ha hb h =
    let t =
      append_cancel (u32_bytes (a / 2 ^ 32 % 2 ^ 32)) (u32_bytes (b / 2 ^ 32 % 2 ^ 32)) _ _
        (length-u32_bytes _ ∙ sym (length-u32_bytes _))
        (sym (u64_bytes_lem a) ∙ h ∙ u64_bytes_lem b) in
    let high = u32_bytes-injective _ _ (omega arith) (omega arith) t.0 in
    let low = u32_bytes-injective _ _ (omega arith) (omega arith) t.1 in omega (arith, high, low)

pub length-u64_bytes : (a : ℕ) → length (u64_bytes a) ≡ 8
unfolding u32_bytes u64_bytes
length-u64_bytes a = refl
