-- ===== src/Prelude/Decimal.antt =====
-- `parse` takes back what `Display` writes of a `u64`.
use Prim.Native.String
use Prim.Native.String.{String}
use Prim.Native.Char.{Char, code}
use text.Mathlib.TextLemmas.{nil-append, cons-append}
use Prim.Native.Nat.{ℕ, zero, suc, ◌+◌, ◌-◌, ◌*◌, ◌/◌, ◌%◌, ◌^◌, ◌≤◌, ◌<◌}
use mathlib.Core.Path.{◌≡◌, refl, ap, ◌∙◌}
use mathlib.Core.Bool.{Bool, true, false, ◌&&◌}
use mathlib.Core.Logic.{inl, inr}
use mathlib.Core.Option.{some}
use native.Mathlib.Omega.{arith}
use prismproxy.Prelude.Tests.{ltb, ◌==◌, if◌then◌else◌, Bool-cases}
use prismproxy.Prelude.Text.{digit, show_from, show}
use prismproxy.Prelude.Parse.{within, is_whitespace, trim_start, trim_end, trim, scan, parse_u64}

-- Digits only.
abbrev IsDecimal : String → Type 0
IsDecimal String.[] = Unit
IsDecimal (String.◌∷◌ c s) = (48 ≤ code c) × (code c ≤ 57) × IsDecimal s

-- Digits, and at least one.
abbrev IsNumeral : String → Type 0
IsNumeral String.[] = ⊥
IsNumeral (String.◌∷◌ c s) = IsDecimal (String.◌∷◌ c s)

IsNumeral→IsDecimal : (s : String) → IsNumeral s → IsDecimal s
IsNumeral→IsDecimal String.[] h = tt
IsNumeral→IsDecimal (String.◌∷◌ c s) h = h

-- A digit is one character.
digit-code : (d : ℕ) → d < 10 → (c : Char) × (digit d ≡ String.◌∷◌ c String.[]) × (code c ≡ 48 + d)
digit-code zero h = ("0", refl, refl)
digit-code (suc zero) h = ("1", refl, refl)
digit-code (suc (suc zero)) h = ("2", refl, refl)
digit-code (suc (suc (suc zero))) h = ("3", refl, refl)
digit-code (suc (suc (suc (suc zero)))) h = ("4", refl, refl)
digit-code (suc (suc (suc (suc (suc zero))))) h = ("5", refl, refl)
digit-code (suc (suc (suc (suc (suc (suc zero)))))) h = ("6", refl, refl)
digit-code (suc (suc (suc (suc (suc (suc (suc zero))))))) h = ("7", refl, refl)
digit-code (suc (suc (suc (suc (suc (suc (suc (suc zero)))))))) h = ("8", refl, refl)
digit-code (suc (suc (suc (suc (suc (suc (suc (suc (suc zero))))))))) h = ("9", refl, refl)
digit-code (suc (suc (suc (suc (suc (suc (suc (suc (suc (suc d)))))))))) h =
    absurd (omega (arith, h))

scan-code :
    (n d : ℕ) (c : Char) (tail : String)
    → d < 10
    → code c ≡ 48 + d
    → n * 10 + d < 2 ^ 64
    → scan n (String.◌∷◌ c tail) ≡ scan (n * 10 + d) tail
unfolding scan
scan-code n d c tail small at fits =
    let same : n * 10 + (code c - 48) ≡ n * 10 + d = omega arith in
    let in_range : (within 48 57 (code c) && ltb (n * 10 + d) (2 ^ 64)) ≡ true = ground arith in
    rw (same, in_range) refl

module _ (n d : ℕ) (tail : String) (small : d < 10) where
  scan-digit : n * 10 + d < 2 ^ 64 → scan n (String.◌++◌ (digit d) tail) ≡ scan (n * 10 + d) tail
  scan-digit fits =
      let (c, one, at) = digit-code d small in
      rw (one, cons-append, nil-append) (scan-code n d c tail small at fits)

  digit-IsNumeral : IsDecimal tail → IsNumeral (String.◌++◌ (digit d) tail)
  digit-IsNumeral h =
      let (c, one, at) = digit-code d small in
      rw (one, cons-append, nil-append) (omega (arith, at), omega (arith, at), h)

show_from-scan :
    (fuel n : ℕ) (tail : String)
    → n < fuel
    → n < 2 ^ 64
    → scan 0 (show_from fuel n tail) ≡ scan n tail
unfolding show_from
show_from-scan zero n tail enough fits = ground arith
show_from-scan (suc fuel) n tail enough fits =
    let d = n % 10 in
    let small : d < 10 = omega arith in
    elim (Bool-cases (ltb n 10)) [
      | inl last ↦
          let low : n < 10 = ground arith in
          rw last
            (scan-digit 0 d tail small (omega arith) ∙ ap (λ k. scan k tail) (omega (arith, low)))
      | inr more ↦
          let high : 10 ≤ n = ground arith in
          rw more (
            show_from-scan fuel (n / 10) _ (omega arith) (omega arith)
            ∙ scan-digit (n / 10) d tail small (omega arith)
            ∙ ap (λ k. scan k tail) (omega arith))
    ]

IsNumeral-if :
    (b : Bool) (s t : String) → IsNumeral s → IsNumeral t → IsNumeral (if b then s else t)
IsNumeral-if true s t hs ht = hs
IsNumeral-if false s t hs ht = ht

show_from-IsNumeral :
    (fuel n : ℕ) (tail : String) → IsNumeral tail → IsNumeral (show_from fuel n tail)
unfolding show_from
show_from-IsNumeral zero n tail h = h
show_from-IsNumeral (suc fuel) n tail h =
    let longer = digit-IsNumeral 0 (n % 10) tail (omega arith) (IsNumeral→IsDecimal tail h) in
    IsNumeral-if (ltb n 10) _ _ longer (show_from-IsNumeral fuel (n / 10) _ longer)

show-IsNumeral : (n : ℕ) → IsNumeral (show n)
unfolding show
show-IsNumeral n =
    let longer = digit-IsNumeral 0 (n % 10) "" (omega arith) tt in
    IsNumeral-if (ltb n 10) _ _ longer (show_from-IsNumeral n (n / 10) _ longer)

-- No digit is white space.
digit-is_whitespace : (c : ℕ) → 48 ≤ c → c ≤ 57 → is_whitespace c ≡ false
unfolding is_whitespace
digit-is_whitespace c low high = ground arith

trim_start-decimal : (s : String) → IsDecimal s → trim_start s ≡ s
unfolding trim_start
trim_start-decimal String.[] h = refl
trim_start-decimal (String.◌∷◌ c s) h = rw (digit-is_whitespace (code c) h.0 h.1) refl

trim_end-decimal : (s : String) → IsDecimal s → trim_end s ≡ s
unfolding trim_end
trim_end-decimal String.[] h = refl
trim_end-decimal (String.◌∷◌ c s) h =
    rw (digit-is_whitespace (code c) h.0 h.1, trim_end-decimal s h.2, cons-append, nil-append) refl

trim-decimal : (s : String) → IsDecimal s → trim s ≡ s
unfolding trim
trim-decimal s h = rw (trim_start-decimal s h) (trim_end-decimal s h)

parse_u64-numeral : (s : String) → IsNumeral s → parse_u64 s ≡ scan 0 s
unfolding parse_u64
parse_u64-numeral String.[] h = absurd h
parse_u64-numeral (String.◌∷◌ c s) h =
    let not_plus : (code c == 43) ≡ false = ground (arith, h.0) in rw not_plus refl

-- What `Display` writes is read back, with white space trimmed.
pub parse_u64-trim-show : (n : ℕ) → n < 2 ^ 64 → parse_u64 (trim (show n)) ≡ some n
unfolding show scan
parse_u64-trim-show n fits =
    ap parse_u64 (trim-decimal (show n) (IsNumeral→IsDecimal (show n) (show-IsNumeral n)))
    ∙ parse_u64-numeral (show n) (show-IsNumeral n)
    ∙ show_from-scan (suc n) n "" (omega arith) fits
