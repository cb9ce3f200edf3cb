-- ===== src/Prelude/Visible.antt =====
-- Texts of visible characters: joining them, and the decimal digits.
use Prim.Native.String
use Prim.Native.String.{String}
use text.Mathlib.TextLemmas.{nil-append, cons-append}
use Prim.Native.Nat.{ℕ, zero, suc, ◌/◌, ◌%◌}
use mathlib.Core.Bool.{Bool, true, false}
use native.Mathlib.Omega.{arith}
use prismproxy.Prelude.Tests.{ltb, ◌==◌, if◌then◌else◌}
use prismproxy.Prelude.Text.{IsVisible, digit, show_from, show}

pub IsVisible-append : (s t : String) → IsVisible s → IsVisible t → IsVisible (String.◌++◌ s t)
IsVisible-append String.[] t hs ht = rw nil-append ht
IsVisible-append (String.◌∷◌ c s) t (lo, hi, hs) ht =
    rw cons-append (lo, hi, IsVisible-append s t hs ht)

IsVisible-if :
    (b : Bool) (s t : String) → IsVisible s → IsVisible t → IsVisible (if b then s else t)
IsVisible-if true s t hs ht = hs
IsVisible-if false s t hs ht = ht

digit-IsVisible : (d : ℕ) → IsVisible (digit d)
digit-IsVisible d = IsVisible-if (d == 0) "0" _ (omega arith) (
    IsVisible-if (d == 1) "1" _ (omega arith) (
      IsVisible-if (d == 2) "2" _ (omega arith) (
        IsVisible-if (d == 3) "3" _ (omega arith) (
          IsVisible-if (d == 4) "4" _ (omega arith) (
            IsVisible-if (d == 5) "5" _ (omega arith) (
              IsVisible-if (d == 6) "6" _ (omega arith) (
                IsVisible-if (d == 7) "7" _ (omega arith)
                  (IsVisible-if (d == 8) "8" _ (omega arith) (omega arith)))))))))

show_from-IsVisible :
    (fuel n : ℕ) (tail : String) → IsVisible tail → IsVisible (show_from fuel n tail)
unfolding show_from
show_from-IsVisible zero n tail h = h
show_from-IsVisible (suc fuel) n tail h =
    let longer = IsVisible-append (digit (n % 10)) tail (digit-IsVisible (n % 10)) h in
    IsVisible-if (ltb n 10) _ _ longer (show_from-IsVisible fuel (n / 10) _ longer)

pub show-IsVisible : (n : ℕ) → IsVisible (show n)
unfolding show
show-IsVisible n = show_from-IsVisible (suc n) n "" tt
