-- ===== src/Base/Sets.antt =====
-- Go's `map[K]bool` used as a set: a list of its keys, each once. `set_equal` is the comparison
-- by size and by the keys of one side.
use dnsgolang.Base.Lists.{length, keep, length-keep}
use dnsgolang.Base.Tests.{if◌then◌else◌, Bool-cases}
use dnsgolang.Base.Compare.{Eq, ◌==◌, nat_eq, beq_refl}
use Prim.Native.Nat.{suc, ◌≤◌}
use mathlib.Core.Path.{◌≡◌, refl, sym, ◌∙◌}
use mathlib.Core.Logic.{◌↔◌, inl, inr}
use mathlib.Core.Bool.{Bool, true, false, not, ◌&&◌, ◌||◌}
use mathlib.Core.List.{List, [], ◌∷◌}
use native.Mathlib.Omega.{arith}

module _ {ℓ} {A : Type ℓ} ⦃e : Eq A⦄ where
  abbrev pub has : A → List A → Bool
  has k [] = false
  has k (x ∷ xs) = k == x || has k xs

  -- `set[k] = true`
  unfoldable pub add : A → List A → List A
  add k xs = if has k xs then xs else k ∷ xs

  abbrev pub Distinct : List A → Type 0
  Distinct [] = Unit
  Distinct (x ∷ xs) = (has x xs ≡ false) × Distinct xs

  unfoldable pub subset : List A → List A → Bool
  subset [] set = true
  subset (x ∷ xs) set = has x set && subset xs set

  unfoldable pub set_equal : List A → List A → Bool
  unfolding subset
  set_equal a b = nat_eq.beq (length a) (length b) && subset a b

  pub has-add : (k j : A) (xs : List A) → has k (add j xs) ≡ (k == j || has k xs)
  unfolding add
  has-add k j xs = ground (arith, e.beq_iff k j)

  pub add-Distinct : (k : A) (xs : List A) → Distinct xs → Distinct (add k xs)
  unfolding add
  add-Distinct k xs h = ground arith

  has-keep : (k : A) (p : A → Bool) (xs : List A) → has k (keep p xs) ≡ (has k xs && p k)
  has-keep k p [] = refl
  has-keep k p (x ∷ xs) = ground (arith, has-keep k p xs, e.beq_iff k x)

  -- The set without one key.
  without : A → List A → List A
  without k xs = keep (λ x. not (x == k)) xs

  length-without : (k : A) (xs : List A) → has k xs ≡ true → suc (length (without k xs)) ≤ length xs
  unfolding without
  length-without k [] h = cc
  length-without k (x ∷ xs) h =
      ground (
        arith,
        length-without k xs,
        length-keep (λ y. not (y == k)) xs,
        e.beq_iff k x,
        e.beq_iff x k,
      )

  pub subset→has :
      (xs set : List A) (k : A) → subset xs set ≡ true → has k xs ≡ true → has k set ≡ true
  unfolding subset
  subset→has [] set k s h = cc
  subset→has (x ∷ xs) set k s h = ground (arith, subset→has xs set k, e.beq_iff k x)

  pub has→subset :
      (xs set : List A) → ((k : A) → has k xs ≡ true → has k set ≡ true) → subset xs set ≡ true
  unfolding subset
  has→subset [] set h = refl
  has→subset (x ∷ xs) set h =
      let here : has x set ≡ true = h x (rw (beq_refl x)) in
      let rest = has→subset xs set (λ k p. h k (ground arith)) in ground arith

  -- Distinct keys of one set, all in the other, are at most as many.
  pub length-le_of_subset : (a b : List A) → Distinct a → subset a b ≡ true → length a ≤ length b
  unfolding subset without
  length-le_of_subset [] b d s = omega arith
  length-le_of_subset (x ∷ xs) b d s =
      let inside : (k : A) → has k xs ≡ true → has k (without x b) ≡ true = λ k h.
        ground
          (arith, h, has-keep k (λ y. not (y == x)) b, subset→has xs b k, e.beq_iff k x, d.0) in
      ground (
        arith,
        length-le_of_subset xs (without x b) d.1 (has→subset xs (without x b) inside),
        length-without x b,
      )

  has-superset :
      (a b : List A) (k : A)
      → Distinct a
      → subset a b ≡ true
      → length a ≡ length b
      → has k b ≡ true
      → has k a ≡ true
  unfolding subset
  has-superset a b k d s l h = elim (Bool-cases (has k a)) [
    | inl yes' ↦ yes'
    | inr fresh ↦ absurd (ground (arith, length-le_of_subset (k ∷ a) b (fresh, d), fresh))
  ]

  -- On sets of distinct keys the comparison decides that they have the same keys.
  pub set_equal_iff :
      (a b : List A)
      → Distinct a
      → Distinct b
      → (set_equal a b ≡ true) ↔ ((k : A) → has k a ≡ has k b)
  unfolding set_equal
  set_equal_iff a b da db = (
    (λ h k. ground (arith, h, subset→has a b k, has-superset a b k da)),
    (λ h.
        let ab = has→subset a b (λ k p. sym (h k) ∙ p) in
        let ba = has→subset b a (λ k p. h k ∙ p) in
        ground (arith, length-le_of_subset a b da ab, length-le_of_subset b a db ba)),
  )
