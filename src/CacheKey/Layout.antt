-- ===== src/CacheKey/Layout.antt =====
-- What the chain of appends leaves: the encodings one after the other, if they fit.
use mathlib.Core.List.{append_assoc, append-nil}
use pg_oauth_validator.CacheState.Types.{max_key_size}
use pg_oauth_validator.Base.{
  Bytes, List, ◌∷◌, Option, length, ◌++◌, if◌then◌else◌, ◌≤◌, ◌%◌, leb, [], some, ◌≡◌, none, arith,
  length-append, true, false, refl, le→leb, Bool-cases, inl, leb→le, inr, ◌∙◌, ap, sym,
}
use pg_oauth_validator.CacheKey.Build.{
  Item, append_bytes, append_string, append, append_u32, append_u8, u32_bytes, append_u64, raw, u8,
  u32, u64, u64_bytes, string, append_all, build, KeyPolicy, bad_policy, key_invalid_argument,
  items_of, key_ok, key_too_large,
}

abbrev pub encode : Item → Bytes
encode (raw b) = b
encode (u8 n) = n % 256 ∷ []
encode (u32 n) = u32_bytes n
encode (u64 n) = u64_bytes n
encode (string s) = u32_bytes (length s) ++ s

abbrev pub encode_all : List Item → Bytes
encode_all [] = []
encode_all (x ∷ xs) = encode x ++ encode_all xs

fits : Bytes → Option Bytes
fits b = if leb (length b) max_key_size then some b else none

append_bytes_lem :
    (key b : Bytes) → length key ≤ max_key_size → append_bytes key b ≡ fits (key ++ b)
unfolding append_bytes fits
append_bytes_lem key b h = ground (arith, length-append key b)

append_string_lem :
    (key s : Bytes)
    → length key ≤ max_key_size
    → append_string key s ≡ fits (key ++ encode (string s))
unfolding append_string append_u32 append_bytes fits u32_bytes
append_string_lem key s h = ground (
  arith,
  length-append key (u32_bytes (length s) ++ s),
  length-append key (u32_bytes (length s)),
  append_assoc key (u32_bytes (length s)) s,
)

append_lem :
    (key : Bytes) (x : Item) → length key ≤ max_key_size → append key x ≡ fits (key ++ encode x)
unfolding append append_u8 append_u32 append_u64
append_lem key (raw b) h = append_bytes_lem key b h
append_lem key (u8 n) h = append_bytes_lem key (n % 256 ∷ []) h
append_lem key (u32 n) h = append_bytes_lem key (u32_bytes n) h
append_lem key (u64 n) h = append_bytes_lem key (u64_bytes n) h
append_lem key (string s) h = append_string_lem key s h

fits-within : (b : Bytes) → leb (length b) max_key_size ≡ true → fits b ≡ some b
unfolding fits
fits-within b h = rw h refl

fits-over : (b : Bytes) → leb (length b) max_key_size ≡ false → fits b ≡ none
unfolding fits
fits-over b h = rw h refl

over-append :
    (b c : Bytes) → leb (length b) max_key_size ≡ false → leb (length (b ++ c)) max_key_size ≡ false
over-append b c h = ground (arith, length-append b c)

append_all-some :
    (key next : Bytes) (x : Item) (xs : List Item)
    → append key x ≡ some next
    → append_all key (x ∷ xs) ≡ append_all next xs
unfolding append_all
append_all-some key next x xs h = rw (h, append_all) refl

append_all-none :
    (key : Bytes) (x : Item) (xs : List Item) → append key x ≡ none → append_all key (x ∷ xs) ≡ none
unfolding append_all
append_all-none key x xs h = rw (h, append_all) refl

append_all_lem :
    (xs : List Item) (key : Bytes)
    → length key ≤ max_key_size
    → append_all key xs ≡ fits (key ++ encode_all xs)
unfolding append_all
append_all_lem [] key h = rw (append-nil key, fits-within key (le→leb _ _ h)) refl
append_all_lem (x ∷ xs) key h = elim (Bool-cases (leb (length (key ++ encode x)) max_key_size)) [
  | inl e ↦
      append_all-some key (key ++ encode x) x xs (append_lem key x h ∙ fits-within _ e)
      ∙ append_all_lem xs (key ++ encode x) (leb→le _ _ e)
      ∙ ap fits (append_assoc key (encode x) (encode_all xs))
  | inr e ↦
      append_all-none key x xs (append_lem key x h ∙ fits-over _ e)
      ∙ sym (fits-over _ (over-append _ (encode_all xs) e))
      ∙ ap fits (append_assoc key (encode x) (encode_all xs))
]

-- A build answers by its arguments and the size alone: a policy with a missing or impossible field
-- is refused, an acceptable one whose fields take more bytes than a key holds is too large, and the
-- key of any other is its fields' encodings, one after the other in their fixed order.
pub build_lem :
    (p : KeyPolicy)
    → build (some p) ≡ (
        if bad_policy p
        then key_invalid_argument
        else if leb (length (encode_all (items_of p))) max_key_size
        then key_ok (encode_all (items_of p))
        else key_too_large)
unfolding build fits
build_lem p = elim (Bool-cases (bad_policy p)) [
  | inl e ↦ rw e refl
  | inr e ↦ rw (e, append_all_lem (items_of p) [] (omega arith), build) (ground arith)
]
