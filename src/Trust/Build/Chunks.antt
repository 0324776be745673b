-- ===== src/Trust/Build/Chunks.antt =====
-- internal/service/trust.go: how the build job cuts its lines into chunks.
use dnsgolang.Base.{
  ℕ, suc, zero, ◌+◌, ◌-◌, ◌*◌, ◌≤◌, ◌<◌, ◌≡◌, refl, sym, ap, ◌∙◌, Option, none, some, List, [], ◌∷◌,
  ◌++◌, arith, leb, length, take, drop, Bool-cases, leb→le, inl, inr,
}
use dnsgolang.Base.Text.{Text}
use native.Mathlib.Nat.{le-div_iff_mul-le, lt-div-mul-add}
use dnsgolang.Trust.Build.{slice, chunk, total_chunks}

module _ {ℓ} {A : Type ℓ} where
  length-drop : (n : ℕ) (xs : List A) → length (drop n xs) ≡ length xs - n
  length-drop zero xs = omega arith
  length-drop (suc n) [] = omega arith
  length-drop (suc n) (x ∷ xs) = omega (arith, length-drop n xs)

  take-all : (n : ℕ) (xs : List A) → length xs ≤ n → take n xs ≡ xs
  take-all zero [] h = refl
  take-all zero (x ∷ xs) h = absurd (omega (arith, h))
  take-all (suc n) [] h = refl
  take-all (suc n) (x ∷ xs) h = ap (λ ys. x ∷ ys) (take-all n xs (omega (arith, h)))

  drop-all : (n : ℕ) (xs : List A) → length xs ≤ n → drop n xs ≡ []
  drop-all zero [] h = refl
  drop-all zero (x ∷ xs) h = absurd (omega (arith, h))
  drop-all (suc n) [] h = refl
  drop-all (suc n) (x ∷ xs) h = drop-all n xs (omega (arith, h))

  take-append-drop : (n : ℕ) (xs : List A) → take n xs ++ drop n xs ≡ xs
  take-append-drop zero xs = refl
  take-append-drop (suc n) [] = refl
  take-append-drop (suc n) (x ∷ xs) = ap (λ ys. x ∷ ys) (take-append-drop n xs)

  drop-nil : (n : ℕ) → drop {A = A} n [] ≡ []
  drop-nil zero = refl
  drop-nil (suc n) = refl

  drop-drop : (m n : ℕ) (xs : List A) → drop n (drop m xs) ≡ drop (m + n) xs
  drop-drop zero n xs = let e : n ≡ 0 + n = omega arith in ap (λ k. drop k xs) e
  drop-drop (suc m) n [] = drop-nil n ∙ sym (drop-nil (suc m + n))
  drop-drop (suc m) n (x ∷ xs) =
      let e : suc (m + n) ≡ suc m + n = omega arith in
      drop-drop m n xs ∙ ap (λ k. drop k (x ∷ xs)) e

slice-in_range :
    (lo hi : ℕ) (xs : List Text)
    → lo ≤ hi
    → hi ≤ length xs
    → slice lo hi xs ≡ some (take (hi - lo) (drop lo xs))
unfolding slice
slice-in_range lo hi xs h k = ground (arith, h, k)

-- The chunk of an index below the number of chunks is in range: it is the next `size` lines.
pub chunk-eq :
    (size i : ℕ) (lines : List Text)
    → 1 ≤ size
    → i < total_chunks size lines
    → chunk size lines i ≡ some (take size (drop (i * size) lines))
unfolding chunk slice total_chunks
chunk-eq size i lines pos h =
    let fits : (i + 1) * size ≤ length lines + size - 1 =
      (le-div_iff_mul-le {k = size} {x = i + 1} {y = length lines + size - 1} pos).0
        (omega (arith, h)) in
    let lo : i * size < length lines = omega (arith, pos, fits) in
    let rest = drop (i * size) lines in
    elim (Bool-cases (leb ((i + 1) * size) (length lines))) [
      | inl e ↦
          let within = leb→le ((i + 1) * size) (length lines) e in
          let same : (i + 1) * size - i * size ≡ size = omega arith in
          rw e (
            slice-in_range (i * size) ((i + 1) * size) lines (omega arith) within
            ∙ ap (λ n. some (take n rest)) same)
      | inr e ↦
          let long : length rest ≤ size = ground (arith, e, length-drop (i * size) lines) in
          let all : length rest ≤ length lines - i * size =
            omega (arith, length-drop (i * size) lines) in
          rw e (
            slice-in_range (i * size) (length lines) lines (omega (arith, lo)) (omega arith)
            ∙ ap (λ ls. some ls)
                (take-all (length lines - i * size) rest all ∙ sym (take-all size rest long)))
    ]

abbrev pub join_parts : Option (List Text) → Option (List Text) → Option (List Text)
join_parts none later = none
join_parts (some part) none = none
join_parts (some part) (some later) = some (part ++ later)

-- The chunks of `n` indices from `i` on, one after the other.
abbrev pub joined : ℕ → List Text → ℕ → ℕ → Option (List Text)
joined size lines zero i = some []
joined size lines (suc n) i = join_parts (chunk size lines i) (joined size lines n (i + 1))

total_chunks-covers :
    (size : ℕ) (lines : List Text) → 1 ≤ size → length lines ≤ total_chunks size lines * size
unfolding total_chunks
total_chunks-covers size lines pos =
    let above = lt-div-mul-add {a = length lines + size - 1} {b = size} pos in
    omega (arith, above, pos)

-- From any checkpoint on, the chunks that are left are all in range, and together they are the
-- lines that are left, each once and in order: nothing is skipped and nothing is done twice.
pub joined-rest :
    (size : ℕ) (lines : List Text) (n i : ℕ)
    → 1 ≤ size
    → i + n ≡ total_chunks size lines
    → joined size lines n i ≡ some (drop (i * size) lines)
joined-rest size lines zero i pos h =
    let last : i ≡ total_chunks size lines = omega (arith, h) in
    ap (λ ls. some ls)
      (sym (drop-all (i * size) lines (rw last (total_chunks-covers size lines pos))))
joined-rest size lines (suc n) i pos h =
    let here = chunk-eq size i lines pos (omega (arith, h)) in
    let later = joined-rest size lines n (i + 1) pos (omega (arith, h)) in
    let next : i * size + size ≡ (i + 1) * size = omega arith in
    let rest = drop (i * size) lines in
    let whole : take size rest ++ drop ((i + 1) * size) lines ≡ rest =
      ap (λ ls. take size rest ++ ls)
        (ap (λ k. drop k lines) (sym next) ∙ sym (drop-drop (i * size) size lines))
      ∙ take-append-drop size rest in
    ap (λ c. join_parts c (joined size lines n (i + 1))) here
    ∙ ap (λ r. join_parts (some (take size rest)) r) later
    ∙ ap (λ ls. some ls) whole
