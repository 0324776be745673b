-- ===== src/Scheduling/Nodes/Rank.antt =====
-- internal/service/scheduling.go: `rankTupleLess` orders the nodes, and sorting by it puts a
-- best node first.
use dnsgolang.Base.{
  ℕ, ◌≡◌, refl, ◌≢◌, ◌⊎◌, inl, inr, true, false, some, List, [], ◌∷◌, arith, is_empty,
}
use dnsgolang.Base.Sort.{sort_by, IsSorted, sort_by-IsSorted}
use dnsgolang.Base.Members.{In, In-sort_by, sort_by-In, All-In}
use dnsgolang.Scheduling.Types.{Node}
use dnsgolang.Scheduling.Nodes.{
  RankTuple, rank_tuple_less, rank_single_node, goes_before, first_ranked,
}

rank_tuple_less_asym : (x y : RankTuple) → rank_tuple_less x y ≡ true → rank_tuple_less y x ≡ false
unfolding rank_tuple_less
rank_tuple_less_asym x y h = ground arith

rank_tuple_less_step :
    (x y z : RankTuple)
    → rank_tuple_less y x ≡ false
    → rank_tuple_less z y ≡ false
    → rank_tuple_less z x ≡ false
unfolding rank_tuple_less
rank_tuple_less_step x y z h k = ground arith

-- Two tuples of different ids are never tied, so the order of a sort is determined.
pub rank_tuple_less_total :
    (x y : RankTuple) → x.id ≢ y.id → (rank_tuple_less x y ≡ true) ⊎ (rank_tuple_less y x ≡ true)
unfolding rank_tuple_less
rank_tuple_less_total x y h = ground arith

nodes-IsSorted :
    (ref : ℕ) (pool : List Node) → IsSorted (goes_before ref) (sort_by (goes_before ref) pool)
unfolding goes_before
nodes-IsSorted ref pool =
    sort_by-IsSorted (goes_before ref)
      (λ x y h. rank_tuple_less_asym (rank_single_node x ref) (rank_single_node y ref) h)
      (λ x y z h k.
        rank_tuple_less_step (rank_single_node x ref) (rank_single_node y ref)
          (rank_single_node z ref) h k)
      pool

goes_before_irrefl : (ref : ℕ) (n : Node) → goes_before ref n n ≡ false
unfolding goes_before rank_tuple_less
goes_before_irrefl ref n = ground arith

-- A node of the pool that no node of the pool goes before.
abbrev pub IsBest : ℕ → List Node → Node → Type 0
IsBest ref pool n = In n pool × ((m : Node) → In m pool → goes_before ref m n ≡ false)

head_best :
    (ref : ℕ) (n : Node) (ns : List Node)
    → IsSorted (goes_before ref) (n ∷ ns)
    → (m : Node) → In m (n ∷ ns)
    → goes_before ref m n ≡ false
head_best ref n ns s m (inl e) = rw e (goes_before_irrefl ref n)
head_best ref n ns s m (inr h) = All-In (λ y. goes_before ref y n ≡ false) m ns s.0 h

-- Of a pool that is not empty the first node after the sort is a best one.
pub first_ranked-IsBest :
    (ref : ℕ) (pool : List Node)
    → is_empty pool ≡ false
    → (n : Node) × (first_ranked ref pool ≡ some n) × IsBest ref pool n
unfolding first_ranked
first_ranked-IsBest ref [] h = cc
first_ranked-IsBest ref (p ∷ ps) h = from (sort_by (goes_before ref) (p ∷ ps)) refl
  where
    from :
        (sorted : List Node)
        → sort_by (goes_before ref) (p ∷ ps) ≡ sorted
        → (n : Node) × (first_ranked ref (p ∷ ps) ≡ some n) × IsBest ref (p ∷ ps) n
    from [] e = absurd (rw e at (sort_by-In (goes_before ref) p (p ∷ ps) (inl refl)))
    from (n ∷ ns) e = (
      n,
      rw (e, first_ranked),
      (
        In-sort_by (goes_before ref) n (p ∷ ps) (rw e (inl refl)),
        (λ m h.
            head_best ref n ns (rw e at (nodes-IsSorted ref (p ∷ ps))) m
              (rw e at (sort_by-In (goes_before ref) m (p ∷ ps) h))),
      ),
    )
