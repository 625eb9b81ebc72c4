-- ===== src/Prelude/Texts.antt =====
-- Texts of C: the characters up to the first 0, and their comparison.
use Prim.Native.Nat.{ℕ, zero}
use mathlib.Core.Bool.{Bool, true, false, ◌&&◌}
use mathlib.Core.List.{List, [], ◌∷◌}
use mathlib.Core.Path.{◌≡◌, refl}
use native.Mathlib.Omega.{arith}
use hackrf.Prelude.Tests.{◌==◌}

-- The text in a buffer, up to the first 0.
abbrev pub text : List ℕ → List ℕ
text [] = []
text (zero ∷ cs) = []
text (c ∷ cs) = c ∷ text cs

-- Whether two texts are the same.
abbrev pub same : List ℕ → List ℕ → Bool
same [] [] = true
same (x ∷ xs) (y ∷ ys) = let rest = same xs ys in (x == y) && rest
same _ _ = false

pub same→eq : (xs ys : List ℕ) → same xs ys ≡ true → xs ≡ ys
same→eq [] [] e = refl
same→eq [] (y ∷ ys) e = cc
same→eq (x ∷ xs) [] e = cc
same→eq (x ∷ xs) (y ∷ ys) e = ground (arith, same→eq xs ys)
