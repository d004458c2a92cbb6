-- ===== src/Base/Text.antt =====
-- C texts, without their terminating zero: character classes of the C locale, trimming, the loop
-- over comma-separated entries that several parsers share, comparison without case.
use Prim.Native.Nat.{ℕ, ◌+◌}
use Prim.Native.Char.{code}
use Prim.Native.String.{String}
use mathlib.Core.Bool.{Bool, true, false, ◌&&◌, ◌||◌}
use mathlib.Core.List.{List, [], ◌∷◌, map}
use mathlib.Core.Option.{Option, none, some}
use pg_oauth_validator.Base.Tests.{ltb, leb, ◌==◌, if◌then◌else◌}
use pg_oauth_validator.Base.ByteString.{Bytes, bytes_eq}

-- The bytes of an ASCII literal.
abbrev pub text : String → Bytes
text String.[] = []
text (String.◌∷◌ c s) = code c ∷ text s

-- `isspace`, `iscntrl`, `isalnum` and `tolower`
unfoldable pub is_space : ℕ → Bool
is_space b = b == b' ' || (leb 9 b && leb b 13)

unfoldable pub is_cntrl : ℕ → Bool
is_cntrl b = ltb b 32 || b == 127

abbrev pub is_digit : ℕ → Bool
is_digit b = leb b'0' b && leb b b'9'

unfoldable pub is_alnum : ℕ → Bool
is_alnum b = is_digit b || (leb b'A' b && leb b b'Z') || (leb b'a' b && leb b b'z')

unfoldable pub lower : ℕ → ℕ
lower b = if leb b'A' b && leb b b'Z' then b + 32 else b

-- A space or a tab.
unfoldable pub is_blank : ℕ → Bool
is_blank b = b == b' ' || b == b'\t'

-- Equal lengths and `strncasecmp(a, b, length) == 0`.
unfoldable pub eq_ignore_case : Bytes → Bytes → Bool
eq_ignore_case a b = bytes_eq (map lower a) (map lower b)

abbrev pub is_empty : Bytes → Bool
is_empty [] = true
is_empty (b ∷ bs) = false

-- The loops that move a start forward and an end back over bytes of a class.
unfoldable pub skip : (ℕ → Bool) → Bytes → Bytes
skip p [] = []
skip p (b ∷ bs) = if p b then skip p bs else b ∷ bs

unfoldable pub skip_back : (ℕ → Bool) → Bytes → Bytes
skip_back p [] = []
skip_back p (b ∷ bs) = let rest = skip_back p bs in if p b && is_empty rest then [] else b ∷ rest

unfoldable pub trim : (ℕ → Bool) → Bytes → Bytes
trim p bs = skip_back p (skip p bs)

-- `strchr` or `memchr`: what stands before the byte, and what stands behind it if it is there.
unfoldable pub before : ℕ → Bytes → Bytes
before c [] = []
before c (b ∷ bs) = if b == c then [] else b ∷ before c bs

unfoldable pub behind : ℕ → Bytes → Option Bytes
behind c [] = none
behind c (b ∷ bs) = if b == c then some bs else behind c bs

abbrev pub prepend : ℕ → List Bytes → List Bytes
prepend b [] = (b ∷ []) ∷ []
prepend b (e ∷ es) = (b ∷ e) ∷ es

-- The entries of `while (*entry != '\0') { end = strchr(entry, ','); …; if (end == NULL) break;
-- entry = end + 1; }`: a comma at the very end opens no further entry.
unfoldable pub entries_of : Bytes → List Bytes
entries_of [] = []
entries_of (b ∷ bs) = let rest = entries_of bs in if b == b',' then [] ∷ rest else prepend b rest

-- `if (*entry == '\0') return false;` behind a comma.
unfoldable pub ends_in_comma : Bytes → Bool
ends_in_comma [] = false
ends_in_comma (b ∷ []) = b == b','
ends_in_comma (b ∷ c ∷ bs) = ends_in_comma (c ∷ bs)

-- The pieces of a text between separators, in the manner of `for (i = 0; i <= length; i++) if (i !=
-- length && text[i] != c) continue; …; start = i + 1;`: there is always one, and it may be empty.
unfoldable pub split : ℕ → Bytes → List Bytes
split c [] = [] ∷ []
split c (b ∷ bs) = let rest = split c bs in if b == c then [] ∷ rest else prepend b rest
