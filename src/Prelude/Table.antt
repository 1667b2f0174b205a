-- ===== src/Prelude/Table.antt =====
-- Statements about small ranges and fixed sizes, by evaluation.
use Prim.Native.Nat.{ℕ, zero, suc, ◌+◌, ◌<◌}
use mathlib.Core.Path.{◌≡◌, refl, ap, ap₂, ◌∙◌}
use mathlib.Core.Bool.{Bool, true, false}
use bmsnode_firmware.Prelude.Tests.{if◌then◌else◌}
use mathlib.Core.List.{List, [], ◌∷◌}
use native.Mathlib.Omega.{arith}
use bmsnode_firmware.Prelude.Lists.{length, get_or}

-- Whether a test is true of every number below a bound.
unfoldable pub check_below : ℕ → (ℕ → Bool) → Bool
check_below zero test = true
check_below (suc last) test = if test last then check_below last test else false

pub check_below_sound :
    (bound : ℕ) (test : ℕ → Bool) (i : ℕ)
    → check_below bound test ≡ true
    → i < bound
    → test i ≡ true
unfolding check_below
check_below_sound zero test i ok inside = absurd (omega arith)
check_below_sound (suc last) test i ok inside =
    let earlier = check_below_sound last test i in ground (arith, earlier)

-- The list of the first `n` values of `f`, from `i` on.
abbrev pub tabulate : ℕ → ℕ → (ℕ → ℕ) → List ℕ
tabulate zero i f = []
tabulate (suc n) i f = f i ∷ tabulate n (i + 1) f

tabulate_shift :
    (n i : ℕ) (x : ℕ) (xs : List ℕ)
    → tabulate n (i + 1) (λ k. get_or (x ∷ xs) k 0) ≡ tabulate n i (λ k. get_or xs k 0)
tabulate_shift zero i x xs = refl
tabulate_shift (suc n) i x xs =
    let e : i + 1 ≡ suc i = omega arith in
    ap₂ ◌∷◌ (ap (λ k. get_or (x ∷ xs) k 0) e) (tabulate_shift n (i + 1) x xs)

-- A list of known length, written out.
pub spelled_out : (xs : List ℕ) (n : ℕ) → length xs ≡ n → tabulate n 0 (λ k. get_or xs k 0) ≡ xs
spelled_out [] zero h = refl
spelled_out [] (suc n) h = absurd (omega arith)
spelled_out (x ∷ xs) zero h = absurd (omega arith)
spelled_out (x ∷ xs) (suc n) h = ap (λ l. x ∷ l) (shift ∙ spelled_out xs n (omega arith))
  where
    shift : tabulate n (0 + 1) (λ k. get_or (x ∷ xs) k 0) ≡ tabulate n 0 (λ k. get_or xs k 0)
    shift = tabulate_shift n 0 x xs
