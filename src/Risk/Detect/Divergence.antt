-- ===== src/Risk/Detect/Divergence.antt =====
-- internal/risk/engine.go: the comparison of the answers of several resolvers.
use dnsgolang.Base.{
  ◌≡◌, refl, ◌↔◌, true, false, List, [], ◌∷◌, arith, ◌==◌, text_eq, text_beq_iff, length, ltb, ◌≤◌,
}
use dnsgolang.Base.Text.{Text}
use dnsgolang.Base.Sets.{has, add, has-add, add-Distinct, Distinct, length-le_of_subset, has→subset}
use dnsgolang.Risk.Detect.{ip_signature, signatures, divergence_hit}

-- The signature of each answer, repetitions included.
abbrev pub all_signatures : List (Text × List Text) → List Text
all_signatures [] = []
all_signatures ((resolver, ips) ∷ answers) = ip_signature ips ∷ all_signatures answers

has-signatures :
    (k : Text) (answers : List (Text × List Text))
    → has k (signatures answers) ≡ has k (all_signatures answers)
unfolding signatures
has-signatures k [] = refl
has-signatures k ((resolver, ips) ∷ answers) =
    ground (arith, has-signatures k answers, has-add k (ip_signature ips) (signatures answers))

signatures-Distinct : (answers : List (Text × List Text)) → Distinct (signatures answers)
unfolding signatures
signatures-Distinct [] = tt
signatures-Distinct ((resolver, ips) ∷ answers) =
    add-Distinct (ip_signature ips) (signatures answers) (signatures-Distinct answers)

length-signatures :
    (answers : List (Text × List Text)) → length (signatures answers) ≤ length answers
unfolding signatures add
length-signatures [] = omega arith
length-signatures ((resolver, ips) ∷ answers) = ground (arith, length-signatures answers)

-- Two elements of a set of distinct keys that has more than one.
two_of :
    (xs : List Text)
    → Distinct xs
    → ltb 1 (length xs) ≡ true
    → (k j : Text) × (has k xs ≡ true) × (has j xs ≡ true) × ((k == j) ≡ false)
two_of [] d h = absurd (ground arith)
two_of (x ∷ []) d h = absurd (ground arith)
two_of (x ∷ y ∷ zs) d h =
    (x, y, ground (arith, text_beq_iff x x), ground (arith, text_beq_iff y y), ground (arith, d.0))

-- The resolvers diverge exactly when two of their answers have different signatures.
pub divergence_hit_iff :
    (answers : List (Text × List Text))
    → (divergence_hit answers ≡ true) ↔ (
        (k j : Text) × (has k (all_signatures answers) ≡ true)
        × (has j (all_signatures answers) ≡ true)
        × ((k == j) ≡ false))
unfolding divergence_hit
divergence_hit_iff answers = (
  (λ h.
      let (k, j, hk, hj, ne) =
        two_of (signatures answers) (signatures-Distinct answers) (ground arith) in
      (k, j, rw (has-signatures k answers) at hk, rw (has-signatures j answers) at hj, ne)),
  (λ (k, j, hk, hj, ne).
      let inside =
        has→subset (k ∷ j ∷ []) (signatures answers)
          (λ i m. ground (arith, has-signatures i answers, text_beq_iff i k, text_beq_iff i j)) in
      let two =
        length-le_of_subset (k ∷ j ∷ []) (signatures answers) (ground arith, (refl, tt)) inside in
      ground (arith, two, length-signatures answers)),
)
