-- ===== src/Base/Members.antt =====
-- Membership of lists, by recursion, and how filters and sorts keep it.
use mathlib.Core.Path.{◌≡◌, refl}
use mathlib.Core.Logic.{◌⊎◌, inl, inr}
use mathlib.Core.Bool.{Bool, true}
use mathlib.Core.List.{List, [], ◌∷◌}
use native.Mathlib.Omega.{arith}
use dnsgolang.Base.Tests.{Bool-cases}
use dnsgolang.Base.Lists.{All, keep, any}
use dnsgolang.Base.Sort.{insert_by, sort_by}

module _ {A : Type 0} where
  abbrev pub In : A → List A → Type 0
  In a [] = ⊥
  In a (x ∷ xs) = (a ≡ x) ⊎ In a xs

  pub In-keep : (p : A → Bool) (a : A) (xs : List A) → In a (keep p xs) → In a xs × (p a ≡ true)
  In-keep p a [] h = absurd h
  In-keep p a (x ∷ xs) h = elim (Bool-cases (p x)) [
    | inl e ↦ kept (In-keep p a xs) e (rw e at h)
    | inr e ↦ let (m, q) = In-keep p a xs (rw e at h) in (inr m, q)
  ]
    where
      kept :
          (In a (keep p xs) → In a xs × (p a ≡ true))
          → p x ≡ true
          → (a ≡ x) ⊎ In a (keep p xs)
          → In a (x ∷ xs) × (p a ≡ true)
      kept ih e (inl s) = (inl s, rw s e)
      kept ih e (inr m) = let (n, q) = ih m in (inr n, q)

  pub keep-In : (p : A → Bool) (a : A) (xs : List A) → In a xs → p a ≡ true → In a (keep p xs)
  keep-In p a [] h e = h
  keep-In p a (x ∷ xs) (inl s) e = ground (arith, s, e)
  keep-In p a (x ∷ xs) (inr m) e = ground (arith, keep-In p a xs m e)

  pub All-In {κ} : (P : A → Type κ) (a : A) (xs : List A) → All P xs → In a xs → P a
  All-In P a [] h m = absurd m
  All-In P a (x ∷ xs) h (inl s) = rw s h.0
  All-In P a (x ∷ xs) h (inr m) = All-In P a xs h.1 m

  pub any-In : (p : A → Bool) (a : A) (xs : List A) → In a xs → p a ≡ true → any p xs ≡ true
  any-In p a [] m e = absurd m
  any-In p a (x ∷ xs) (inl s) e = ground (arith, s, e)
  any-In p a (x ∷ xs) (inr m) e = ground (arith, any-In p a xs m e)

  pub In-any : (p : A → Bool) (xs : List A) → any p xs ≡ true → (a : A) × In a xs × (p a ≡ true)
  In-any p [] h = absurd (ground (arith, h))
  In-any p (x ∷ xs) h = elim (Bool-cases (p x)) [
    | inl e ↦ (x, inl refl, e)
    | inr e ↦ let (a, m, q) = In-any p xs (ground (arith, h, e)) in (a, inr m, q)
  ]

  In-insert_by :
      (less : A → A → Bool) (a x : A) (ys : List A) → In a (insert_by less x ys) → (a ≡ x) ⊎ In a ys
  unfolding insert_by
  In-insert_by less a x [] (inl s) = inl s
  In-insert_by less a x [] (inr m) = absurd m
  In-insert_by less a x (y ∷ ys) h = elim (Bool-cases (less y x)) [
    | inl e ↦ back (In-insert_by less a x ys) (rw e at h)
    | inr e ↦ rw e at h
  ]
    where
      back :
          (In a (insert_by less x ys) → (a ≡ x) ⊎ In a ys)
          → (a ≡ y) ⊎ In a (insert_by less x ys)
          → (a ≡ x) ⊎ In a (y ∷ ys)
      back ih (inl s) = inr (inl s)
      back ih (inr m) = elim (ih m) [ inl s ↦ inl s | inr n ↦ inr (inr n) ]

  pub In-sort_by : (less : A → A → Bool) (a : A) (xs : List A) → In a (sort_by less xs) → In a xs
  unfolding sort_by
  In-sort_by less a [] h = h
  In-sort_by less a (x ∷ xs) h = elim (In-insert_by less a x (sort_by less xs) h) [
    | inl s ↦ inl s
    | inr m ↦ inr (In-sort_by less a xs m)
  ]

  insert_by-In :
      (less : A → A → Bool) (a x : A) (ys : List A) → (a ≡ x) ⊎ In a ys → In a (insert_by less x ys)
  unfolding insert_by
  insert_by-In less a x [] h = h
  insert_by-In less a x (y ∷ ys) h = elim (Bool-cases (less y x)) [
    | inl e ↦ rw e (onward (insert_by-In less a x ys) h)
    | inr e ↦ rw e h
  ]
    where
      onward :
          ((a ≡ x) ⊎ In a ys → In a (insert_by less x ys))
          → (a ≡ x) ⊎ ((a ≡ y) ⊎ In a ys)
          → (a ≡ y) ⊎ In a (insert_by less x ys)
      onward ih (inl s) = inr (ih (inl s))
      onward ih (inr (inl s)) = inl s
      onward ih (inr (inr m)) = inr (ih (inr m))

  pub sort_by-In : (less : A → A → Bool) (a : A) (xs : List A) → In a xs → In a (sort_by less xs)
  unfolding sort_by
  sort_by-In less a [] h = h
  sort_by-In less a (x ∷ xs) (inl s) = insert_by-In less a x (sort_by less xs) (inl s)
  sort_by-In less a (x ∷ xs) (inr m) =
      insert_by-In less a x (sort_by less xs) (inr (sort_by-In less a xs m))
