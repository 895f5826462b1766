-- ===== src/Prelude/Text.antt =====
-- What the program does with texts and paths: prefixes, cuts and character classes.
use Prim.Native.Nat.{ℕ}
use Prim.Native.Char.{code}
use Prim.Native.String.{String, [], ◌∷◌}
use mathlib.Core.Bool.{Bool, true, false, ◌&&◌, ◌||◌}
use mathlib.Core.Option.{Option, none, some}
use stego.Prelude.Tests.{leb, nat_beq, if◌then◌else◌}

-- `strings.CutPrefix`
unfoldable pub cut_prefix : String → String → Option String
cut_prefix [] s = some s
cut_prefix (c ∷ p) [] = none
cut_prefix (c ∷ p) (d ∷ s) = if nat_beq (code c) (code d) then cut_prefix p s else none

is_some : {A : Type 0} → Option A → Bool
is_some none = false
is_some (some a) = true

-- `strings.HasPrefix`, with the text first
unfoldable pub has_prefix : String → String → Bool
unfolding cut_prefix is_some
has_prefix s p = is_some (cut_prefix p s)

or_whole : String → Option String → String
or_whole s none = s
or_whole s (some rest) = rest

-- `strings.TrimPrefix`
unfoldable pub trim_prefix : String → String → String
unfolding cut_prefix or_whole
trim_prefix s p = or_whole s (cut_prefix p s)

-- Whether every character passes a test on its code.
unfoldable pub all_codes : (ℕ → Bool) → String → Bool
all_codes p [] = true
all_codes p (c ∷ s) = p (code c) && all_codes p s

abbrev pub is_digit : ℕ → Bool
is_digit c = leb b'0' c && leb c b'9'

abbrev pub is_lower : ℕ → Bool
is_lower c = leb b'a' c && leb c b'z'

abbrev pub is_upper : ℕ → Bool
is_upper c = leb b'A' c && leb c b'Z'

-- A lower-case hexadecimal digit.
abbrev pub is_hex : ℕ → Bool
is_hex c = leb b'0' c && leb c b'9' || leb b'a' c && leb c b'f'
