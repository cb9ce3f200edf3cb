-- ===== src/Prelude/Text.antt =====
-- Rust's `str` and `format!`: joining pieces, UTF-8 bytes, and the `Display` of an unsigned integer.
use Prim.Native.Nat.{ℕ, zero, suc, ◌+◌, ◌/◌, ◌%◌, ◌≤◌, ◌<◌}
use Prim.Native.Char.{code}
use Prim.Native.String
use Prim.Native.String.{String}
use mathlib.Core.Path.{◌≡◌, refl}
use mathlib.Core.Bool.{Bool, ◌||◌}
use text.Mathlib.Text.{◌==◌ as str_eq}
use mathlib.Core.List.{List, [], ◌∷◌, ◌++◌}
use prismproxy.Prelude.Tests.{ltb, ◌==◌, if◌then◌else◌}

-- The pieces of a `format!` string, in order.
abbrev pub format : List String → String
format [] = ""
format (piece ∷ pieces) = String.◌++◌ piece (format pieces)

-- The UTF-8 encoding of one code point.
unfoldable pub utf8 : ℕ → List ℕ
utf8 c =
    if ltb c 0x80
    then c ∷ []
    else if ltb c 0x800
    then (0xC0 + c / 64) ∷ (0x80 + c % 64) ∷ []
    else if ltb c 0x10000
    then (0xE0 + c / 4096) ∷ (0x80 + c / 64 % 64) ∷ (0x80 + c % 64) ∷ []
    else (0xF0 + c / 262144) ∷ (0x80 + c / 4096 % 64) ∷ (0x80 + c / 64 % 64) ∷ (0x80 + c % 64) ∷ []

-- `str::as_bytes`
unfoldable pub as_bytes : String → List ℕ
unfolding utf8
as_bytes String.[] = []
as_bytes (String.◌∷◌ c s) = utf8 (code c) ++ as_bytes s

abbrev pub digit : ℕ → String
digit d =
    if d == 0
    then "0"
    else if d == 1
    then "1"
    else if d == 2
    then "2"
    else if d == 3
    then "3"
    else if d == 4
    then "4"
    else if d == 5
    then "5"
    else if d == 6
    then "6"
    else if d == 7
    then "7"
    else if d == 8
    then "8"
    else "9"

-- The digits of `n` before `tail`; `n + 1` rounds are more than enough.
unfoldable pub show_from : ℕ → ℕ → String → String
show_from zero n tail = tail
show_from (suc fuel) n tail =
    let longer = String.◌++◌ (digit (n % 10)) tail in
    let more = show_from fuel (n / 10) longer in if ltb n 10 then longer else more

-- `Display` of `u64`, `usize`, `u16`.
unfoldable pub show : ℕ → String
unfolding show_from
show n = show_from (suc n) n ""

show_tests :
    (show 0 ≡ "0") × (show 90 ≡ "90") × (show 18446744073709551615 ≡ "18446744073709551615")
unfolding show
show_tests = (refl, refl, refl)

as_bytes_test : as_bytes "aé" ≡ 97 ∷ 0xC3 ∷ 0xA9 ∷ []
unfolding as_bytes
as_bytes_test = refl

-- Characters 32 to 126, as `HeaderValue::from_str` takes them.
abbrev pub IsVisible : String → Type 0
IsVisible String.[] = Unit
IsVisible (String.◌∷◌ c s) = (32 ≤ code c) × (code c < 127) × IsVisible s

-- `str::ends_with`
abbrev pub ends_with : String → String → Bool
ends_with String.[] t = str_eq String.[] t
ends_with (String.◌∷◌ c s) t = str_eq (String.◌∷◌ c s) t || ends_with s t
