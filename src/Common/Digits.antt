-- ===== src/Common/Digits.antt =====
-- Decimal numbers, and the lines of a text.
use Prim.Native.Nat.{ℕ, zero, suc, ◌+◌, ◌/◌, ◌%◌, ◌<◌}
use mathlib.Core.Path.{◌≡◌, ap, ◌∙◌}
use mathlib.Core.Bool.{Bool, true, false}
use mathlib.Core.List.{[], ◌∷◌, ◌++◌}
use native.Mathlib.Omega.{arith}
use entmoot.Common.Tests.{ltb, if◌then◌else◌}
use entmoot.Common.Text.{Str, Lacks, split, split-append, split_of_Lacks}

-- The decimal digits of a number with so many of them at most: 20 are enough for 64 bits.
unfoldable pub digits : ℕ → ℕ → Str
digits zero n = []
digits (suc fuel) n =
    let front = digits fuel (n / 10) in (if ltb n 10 then [] else front) ++ ((b'0' + n % 10) ∷ [])

pub Lacks-append : (c : ℕ) (s t : Str) → Lacks c s → Lacks c t → Lacks c (s ++ t)
Lacks-append c [] t p q = q
Lacks-append c (x ∷ s) t p q = (p.0, Lacks-append c s t p.1 q)

-- No separator that is not a digit stands among digits.
pub digits-Lacks : (c fuel n : ℕ) → c < b'0' → Lacks c (digits fuel n)
unfolding digits
digits-Lacks c zero n h = tt
digits-Lacks c (suc fuel) n h =
    Lacks-append c (if ltb n 10 then [] else digits fuel (n / 10)) ((b'0' + n % 10) ∷ [])
      (shorter (digits fuel (n / 10)) (ltb n 10) (digits-Lacks c fuel (n / 10) h))
      (ground arith, tt)
  where
    shorter : (s : Str) (b : Bool) → Lacks c s → Lacks c (if b then [] else s)
    shorter s true p = tt
    shorter s false p = p

-- A line of a text.
pub split-line : (c : ℕ) (l t : Str) → Lacks c l → split c (l ++ (c ∷ t)) ≡ l ∷ split c t
split-line c l t h = split-append c l t ∙ ap (λ ls. ls ++ split c t) (split_of_Lacks c l h)
