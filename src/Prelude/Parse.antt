-- ===== src/Prelude/Parse.antt =====
-- Rust's `str::trim` and `str::parse::<u64>`.
use Prim.Native.Nat.{ℕ, ◌+◌, ◌-◌, ◌*◌, ◌^◌}
use Prim.Native.Char.{code}
use Prim.Native.String
use Prim.Native.String.{String}
use mathlib.Core.Path.{◌≡◌, refl}
use mathlib.Core.Bool.{Bool, true, false, ◌&&◌, ◌||◌}
use mathlib.Core.Option.{Option, none, some}
use prismproxy.Prelude.Tests.{ltb, leb, ◌==◌, if◌then◌else◌}

abbrev pub within : ℕ → ℕ → ℕ → Bool
within first last c = leb first c && leb c last

-- Unicode's `White_Space`.
unfoldable pub is_whitespace : ℕ → Bool
is_whitespace c =
    within 9 13 c
    || c == 32
    || c == 0x85
    || c == 0xA0
    || c == 0x1680
    || within 0x2000 0x200A c
    || within 0x2028 0x2029 c
    || c == 0x202F
    || c == 0x205F
    || c == 0x3000

unfoldable pub trim_start : String → String
trim_start String.[] = String.[]
trim_start (String.◌∷◌ c s) =
    let rest = trim_start s in if is_whitespace (code c) then rest else String.◌∷◌ c s

-- A character before what is left of the rest.
abbrev pub trim_before : Bool → String → String → String
trim_before true first String.[] = String.[]
trim_before true first (String.◌∷◌ c s) = String.◌++◌ first (String.◌∷◌ c s)
trim_before false first s = String.◌++◌ first s

unfoldable pub trim_end : String → String
trim_end String.[] = String.[]
trim_end (String.◌∷◌ c s) =
    trim_before (is_whitespace (code c)) (String.◌∷◌ c String.[]) (trim_end s)

-- `str::trim`
unfoldable pub trim : String → String
unfolding trim_start trim_end is_whitespace
trim s = trim_end (trim_start s)

-- The digits of a `u64` behind `n`.
unfoldable pub scan : ℕ → String → Option ℕ
scan n String.[] = some n
scan n (String.◌∷◌ c s) =
    let more = n * 10 + (code c - 48) in
    let rest = scan more s in if within 48 57 (code c) && ltb more (2 ^ 64) then rest else none

abbrev pub parse_digits : String → Option ℕ
parse_digits String.[] = none
parse_digits (String.◌∷◌ c s) = scan 0 (String.◌∷◌ c s)

-- `str::parse::<u64>`, with `ok`.
unfoldable pub parse_u64 : String → Option ℕ
unfolding scan
parse_u64 String.[] = none
parse_u64 (String.◌∷◌ c s) = if code c == 43 then parse_digits s else scan 0 (String.◌∷◌ c s)

parse_tests :
    (parse_u64 (trim " 42\n") ≡ some 42)
    × (parse_u64 "+7" ≡ some 7)
    × (parse_u64 "" ≡ none)
    × (parse_u64 "+" ≡ none)
    × (parse_u64 "-1" ≡ none)
    × (parse_u64 "18446744073709551615" ≡ some 18446744073709551615)
    × (parse_u64 "18446744073709551616" ≡ none)
unfolding trim parse_u64
parse_tests = (refl, refl, refl, refl, refl, refl, refl)
