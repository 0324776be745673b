-- ===== src/Base/Text/Laws.antt =====
-- How the operations on strings meet: trimming what needs none, and splitting what was joined.
use Prim.Native.Nat.{ℕ}
use mathlib.Core.Path.{◌≡◌, refl, ap, ◌∙◌}
use mathlib.Core.Bool.{Bool, true, false, not}
use mathlib.Core.List.{List, [], ◌∷◌, ◌++◌}
use native.Mathlib.Omega.{arith}
use dnsgolang.Base.Tests.{nat_beq, nat_beq_iff}
use dnsgolang.Base.Lists.{all, is_empty, All}
use dnsgolang.Base.Text.{Text, trim_left, trim_right, split, join}

-- No byte of the text passes the test.
abbrev pub IsFree : (ℕ → Bool) → Text → Type 0
IsFree p s = all (λ c. not (p c)) s ≡ true

pub trim_right_free : (p : ℕ → Bool) (s : Text) → IsFree p s → trim_right p s ≡ s
unfolding trim_right
trim_right_free p [] h = refl
trim_right_free p (c ∷ s) h = ground (arith, trim_right_free p s, h)

pub trim_right-cons :
    (p : ℕ → Bool) (c : ℕ) (s : Text)
    → is_empty s ≡ false
    → trim_right p s ≡ s
    → trim_right p (c ∷ s) ≡ c ∷ s
unfolding trim_right
trim_right-cons p c s full h = rw (h, full)

pub trim_left_free : (p : ℕ → Bool) (s : Text) → IsFree p s → trim_left p s ≡ s
unfolding trim_left
trim_left_free p [] h = refl
trim_left_free p (c ∷ s) h = ground (arith, h)

split_free : (b : ℕ) (s : Text) → IsFree (λ c. nat_beq c b) s → split b s ≡ s ∷ []
unfolding split
split_free b [] h = refl
split_free b (c ∷ s) h = ground (arith, split_free b s, h)

split-append :
    (b : ℕ) (s rest : Text)
    → IsFree (λ c. nat_beq c b) s
    → split b (s ++ (b ∷ rest)) ≡ s ∷ split b rest
unfolding split
split-append b [] rest h = ground (arith, nat_beq_iff b b)
split-append b (c ∷ s) rest h = ground (arith, split-append b s rest, h)

-- Splitting undoes joining, where the separator stands in none of the parts.
pub split-join :
    (b : ℕ) (s : Text) (ss : List Text)
    → All (IsFree (λ c. nat_beq c b)) (s ∷ ss)
    → split b (join (b ∷ []) (s ∷ ss)) ≡ s ∷ ss
unfolding join
split-join b s [] h = split_free b s h.0
split-join b s (t ∷ ss) h =
    split-append b s (join (b ∷ []) (t ∷ ss)) h.0 ∙ ap (λ r. s ∷ r) (split-join b t ss h.1)
