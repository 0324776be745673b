-- ===== src/Scheduling/Summary/Ratio.antt =====
-- internal/service/scheduling.go: the ratio of an execution, in hundredths of a percent.
use dnsgolang.Base.{ℕ, ◌+◌, ◌*◌, ◌/◌, ◌≤◌, ◌<◌, arith, lt→ltb}
use native.Mathlib.Nat.{div-add-mod, mod-lt, div-lt_iff_lt-mul}
use dnsgolang.Scheduling.Summary.{ratio_hundredths}

-- For a positive total and no more successes the ratio is at most 100 %, and within half a
-- hundredth of the exact quotient.
pub ratio_hundredths_bounds :
    (successes total : ℕ)
    → 0 < total
    → successes ≤ total
    → (ratio_hundredths successes total ≤ 10000)
      × (2 * total * ratio_hundredths successes total ≤ 20000 * successes + total)
      × (20000 * successes < 2 * total * ratio_hundredths successes total + total)
unfolding ratio_hundredths
ratio_hundredths_bounds s t pos le =
    let a = 20000 * s + t in
    let whole = div-add-mod a (2 * t) in
    let rest = mod-lt a {m = 2 * t} (omega arith) in
    let most : a / (2 * t) ≤ 10000 =
      omega (
        arith,
        (div-lt_iff_lt-mul {k = 2 * t} {x = a} {y = 10001} (omega arith)).1 (omega arith),
      ) in
    rw (lt→ltb 0 t pos) (most, omega (arith, whole, rest), omega (arith, whole, rest))
