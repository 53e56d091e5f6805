-- ===== src/Base/Text.antt =====
-- Texts as their characters, and the functions of Rust's `str` that the program calls.
use Prim.Native.Char.{Char, code}
use Prim.Native.Nat.{ℕ, ◌+◌, ◌-◌, ◌/◌, ◌%◌}
use Prim.Native.String.{String}
use mathlib.Core.Path.{◌≡◌, refl}
use mathlib.Core.Bool.{Bool, true, false, ◌&&◌, ◌||◌}
use mathlib.Core.List.{List, [], ◌∷◌, ◌++◌, map, reverse}
use native.Mathlib.Omega.{arith}
use vega_trix.Base.Tests.{leb, ltb, ◌==◌, if◌then◌else◌}

abbrev pub codes : String → List ℕ
codes String.[] = []
codes (String.◌∷◌ c s) = code c ∷ codes s

abbrev pub is_upper : ℕ → Bool
is_upper c = leb b'A' c && leb c b'Z'

abbrev pub is_lower : ℕ → Bool
is_lower c = leb b'a' c && leb c b'z'

-- `char::is_ascii_alphabetic`
abbrev pub is_alphabetic : ℕ → Bool
is_alphabetic c = is_upper c || is_lower c

abbrev pub to_lower : ℕ → ℕ
to_lower c = if is_upper c then c + 32 else c

abbrev pub to_upper : ℕ → ℕ
to_upper c = if is_lower c then c - 32 else c

-- `str::eq`
unfoldable pub text_eq : List ℕ → List ℕ → Bool
text_eq [] [] = true
text_eq (a ∷ s) (b ∷ t) = a == b && text_eq s t
text_eq _ _ = false

-- `str::eq_ignore_ascii_case`
unfoldable pub eq_ignore_ascii_case : String → String → Bool
unfolding text_eq
eq_ignore_ascii_case s t = text_eq (map to_lower (codes s)) (map to_lower (codes t))

-- `char::is_whitespace`: the characters with the property White_Space.
unfoldable pub is_whitespace : ℕ → Bool
is_whitespace c =
    (leb 9 c && leb c 13)
    || c == 32
    || c == 0x85
    || c == 0xA0
    || c == 0x1680
    || (leb 0x2000 c && leb c 0x200A)
    || c == 0x2028
    || c == 0x2029
    || c == 0x202F
    || c == 0x205F
    || c == 0x3000

trim_start : List ℕ → List ℕ
trim_start [] = []
trim_start (c ∷ s) = let rest = trim_start s in if is_whitespace c then rest else c ∷ s

-- `str::trim`
unfoldable pub trim : List ℕ → List ℕ
unfolding trim_start
trim s = reverse (trim_start (reverse (trim_start s)))

pub drop_spaces : List Char → List Char
drop_spaces [] = []
drop_spaces (c ∷ s) = let rest = drop_spaces s in if is_whitespace (code c) then rest else c ∷ s

-- `str::chars` and `collect`
abbrev chars : String → List Char
chars String.[] = []
chars (String.◌∷◌ c s) = c ∷ chars s

abbrev of_chars : List Char → String
of_chars [] = String.[]
of_chars (c ∷ s) = String.◌∷◌ c (of_chars s)

-- `str::trim`, of a text that is kept as one
unfoldable pub trim_text : String → String
unfolding drop_spaces
trim_text s = of_chars (reverse (drop_spaces (reverse (drop_spaces (chars s)))))

pub text_eq_refl : (s : List ℕ) → text_eq s s ≡ true
unfolding text_eq
text_eq_refl [] = refl
text_eq_refl (a ∷ s) = ground (arith, text_eq_refl s)

pub text_eq-eq : (s t : List ℕ) → text_eq s t ≡ true → s ≡ t
unfolding text_eq
text_eq-eq [] [] h = refl
text_eq-eq [] (b ∷ t) h = cc
text_eq-eq (a ∷ s) [] h = cc
text_eq-eq (a ∷ s) (b ∷ t) h = ground (arith, text_eq-eq s t)

eq_ignore_ascii_case_refl : (s : String) → eq_ignore_ascii_case s s ≡ true
unfolding eq_ignore_ascii_case
eq_ignore_ascii_case_refl s = text_eq_refl (map to_lower (codes s))

-- Letters stand at both ends, so nothing is trimmed.
pub trim_three :
    (a b c : ℕ)
    → is_whitespace a ≡ false
    → is_whitespace c ≡ false
    → trim (a ∷ b ∷ c ∷ []) ≡ a ∷ b ∷ c ∷ []
unfolding trim
trim_three a b c ha hc = rw (ha, hc)

pub upper_is_plain :
    (c : ℕ)
    → is_upper c ≡ true
    → (is_whitespace c ≡ false) × (to_upper c ≡ c) × (is_alphabetic c ≡ true)
unfolding is_whitespace
upper_is_plain c h = (ground arith, ground arith, ground arith)

-- The bytes of a character in UTF-8.
unfoldable pub utf8_char : ℕ → List ℕ
utf8_char c =
    if ltb c 0x80
    then c ∷ []
    else if ltb c 0x800
    then (0xC0 + c / 64) ∷ (0x80 + c % 64) ∷ []
    else if ltb c 0x10000
    then (0xE0 + c / 4096) ∷ (0x80 + c / 64 % 64) ∷ (0x80 + c % 64) ∷ []
    else (0xF0 + c / 262144) ∷ (0x80 + c / 4096 % 64) ∷ (0x80 + c / 64 % 64) ∷ (0x80 + c % 64) ∷ []

-- `str::as_bytes`, of a text given by its characters
unfoldable pub utf8 : List ℕ → List ℕ
unfolding utf8_char
utf8 [] = []
utf8 (c ∷ s) = utf8_char c ++ utf8 s

abbrev pub as_bytes : String → List ℕ
as_bytes s = utf8 (codes s)
