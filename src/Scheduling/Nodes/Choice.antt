-- ===== src/Scheduling/Nodes/Choice.antt =====
-- internal/service/scheduling.go: what `getSingleExecutionNode` and `getDefaultNode` return.
use dnsgolang.Base.{
  ℕ, ◌≡◌, refl, ◌∙◌, ap, ◌⊎◌, inl, inr, Bool, true, false, not, ◌||◌, some, List, [], ◌∷◌, arith,
  Bool-cases, is_empty, keep, ◌==◌, text_eq, text_beq_iff, if◌then◌else◌,
}
use dnsgolang.Base.Text.{Text, txt}
use dnsgolang.Base.Members.{In, In-keep, keep-In}
use dnsgolang.Scheduling.Types.{Node, Result, ok}
use dnsgolang.Scheduling.Nodes.{
  is_local, node_online, in_region, prefer, by_mode, single_pool, goes_before, DefaultReads,
  get_default_node, get_single_execution_node,
}
use dnsgolang.Scheduling.Nodes.Rank.{IsBest, first_ranked-IsBest}

is_empty-prefer : (p : Node → Bool) (pool : List Node) → is_empty (prefer p pool) ≡ is_empty pool
is_empty-prefer p pool = elim (Bool-cases (is_empty (keep p pool))) [
  | inl e ↦ rw e
  | inr e ↦ rw e (kept pool e)
]
  where
    kept : (xs : List Node) → is_empty (keep p xs) ≡ false → is_empty (keep p xs) ≡ is_empty xs
    kept [] h = refl
    kept (x ∷ xs) h = h

-- A preferred pool is a part of the pool, and has only preferred nodes if the pool has one.
In-prefer :
    (p : Node → Bool) (pool : List Node) (n : Node)
    → In n (prefer p pool)
    → In n pool × ((m : Node) → In m pool → p m ≡ true → p n ≡ true)
In-prefer p pool n h = elim (Bool-cases (is_empty (keep p pool))) [
  | inl e ↦ ((rw e at h), (λ m i q. absurd (none_kept e m (keep-In p m pool i q))))
  | inr e ↦ let (i, q) = In-keep p n pool (rw e at h) in (i, (λ m j r. q))
]
  where
    none_kept : is_empty (keep p pool) ≡ true → (m : Node) → In m (keep p pool) → ⊥
    none_kept e m i = nothing (keep p pool) e i
      where
        nothing : (xs : List Node) → is_empty xs ≡ true → In m xs → ⊥
        nothing [] e' i' = i'
        nothing (x ∷ xs) e' i' = cc

-- The pool that the region and the mode leave.
abbrev pub regional : List Node → Text → List Node
regional nodes region = if is_empty region then nodes else in_region region nodes

-- The kind of node that a mode asks for.
abbrev pub wants : Text → Node → Bool
wants mode n =
    if mode == txt "local"
    then is_local n.transport
    else if mode == txt "remote"
    then not (is_local n.transport)
    else false

In-by_mode :
    (mode : Text) (pool : List Node) (n : Node)
    → In n (by_mode mode pool)
    → In n pool × ((m : Node) → In m pool → wants mode m ≡ true → wants mode n ≡ true)
unfolding by_mode
In-by_mode mode pool n h = elim (Bool-cases (mode == txt "local")) [
  | inl e ↦ rw e (In-prefer (λ m. is_local m.transport) pool n (rw e at h))
  | inr e ↦ elim (Bool-cases (mode == txt "remote")) [
    | inl f ↦ rw (e, f) (In-prefer (λ m. not (is_local m.transport)) pool n (rw (e, f) at h))
    | inr f ↦ rw (e, f) ((rw (e, f) at h), (λ m i q. cc))
  ]
]

is_empty-by_mode : (mode : Text) (pool : List Node) → is_empty (by_mode mode pool) ≡ is_empty pool
unfolding by_mode
is_empty-by_mode mode pool = ground (
  arith,
  is_empty-prefer (λ m. is_local m.transport) pool,
  is_empty-prefer (λ m. not (is_local m.transport)) pool,
)

-- A node that fits the region if one is named.
abbrev pub FitsRegion : Text → Node → Type 0
FitsRegion region n = (is_empty region ≡ true) ⊎ (n.region_code ≡ region)

In-regional :
    (nodes : List Node) (region : Text) (n : Node)
    → In n (regional nodes region)
    → In n nodes × FitsRegion region n
In-regional nodes region n h = elim (Bool-cases (is_empty region)) [
  | inl e ↦ ((rw e at h), inl e)
  | inr e ↦
      let (i, q) = In-keep (λ m. m.region_code == region) n nodes (rw e at h) in
      (i, inr ((text_beq_iff n.region_code region).0 q))
]

prefer-In :
    (p : Node → Bool) (pool : List Node) (m : Node) → In m pool → p m ≡ true → In m (prefer p pool)
prefer-In p pool m i q = elim (Bool-cases (is_empty (keep p pool))) [
  | inl e ↦ rw e i
  | inr e ↦ rw e (keep-In p m pool i q)
]

-- Where the region has a schedulable node, the choice for a single execution succeeds. It is a
-- schedulable node of the region; it is of the kind that the mode asks for if the region has one;
-- among the nodes left by region and mode it is online if one of these is, and no online one of
-- these ranks before it.
pub get_single_execution_node-IsBest :
    (nodes : List Node) (ref : ℕ) (reads : DefaultReads) (region mode : Text)
    → is_empty (regional nodes region) ≡ false
    → (n : Node) × (get_single_execution_node (ok nodes) ref reads region mode ≡ ok (some n))
      × In n nodes
      × FitsRegion region n
      × ((m : Node) → In m (regional nodes region) → wants mode m ≡ true → wants mode n ≡ true)
      × ((m : Node)
          → In m (single_pool nodes region mode)
          → node_online m ref ≡ true
          → (node_online n ref ≡ true) × (goes_before ref m n ≡ false))
unfolding get_single_execution_node single_pool
get_single_execution_node-IsBest nodes ref reads region mode some_node =
    let at_hand = regional nodes region in
    let pool = by_mode mode at_hand in
    let busy = λ (m : Node). node_online m ref in
    let full : is_empty pool ≡ false = is_empty-by_mode mode at_hand ∙ some_node in
    let (n, found, best) =
      first_ranked-IsBest ref (prefer busy pool) (is_empty-prefer busy pool ∙ full) in
    let (in_pool, up) = In-prefer busy pool n best.0 in
    let (in_region', kind) = In-by_mode mode at_hand n in_pool in
    let (in_nodes, fits) = In-regional nodes region n in_region' in
    (
      n,
      rw (full, found),
      in_nodes,
      fits,
      kind,
      (λ m i q. (up m i q, best.1 m (prefer-In busy pool m i q))),
    )

-- The pool of the default node.
abbrev pub default_pool : List Node → Text → List Node
default_pool nodes region =
    if is_empty (regional nodes region) then nodes else regional nodes region

default_pool-eq :
    (nodes : List Node) (region : Text)
    → (if is_empty region || is_empty (in_region region nodes)
        then nodes
        else in_region region nodes)
      ≡ default_pool nodes region
default_pool-eq nodes region = elim (Bool-cases (is_empty region)) [
  | inl e ↦ rw e (same (is_empty nodes))
  | inr e ↦ rw e
]
  where
    same : (b : Bool) → nodes ≡ (if b then nodes else nodes)
    same true = refl
    same false = refl

is_empty-default_pool :
    (nodes : List Node) (region : Text)
    → is_empty nodes ≡ false
    → is_empty (default_pool nodes region) ≡ false
is_empty-default_pool nodes region full = elim (Bool-cases (is_empty (regional nodes region))) [
  | inl e ↦ rw e full
  | inr e ↦ rw e e
]

-- If there are schedulable nodes at all, the default node exists; it is a best one of the region's
-- nodes, or of all of them where no region is named or the region has none.
pub get_default_node-IsBest :
    (nodes : List Node) (first_of_all : Result Node) (ref : ℕ) (region : Text)
    → is_empty nodes ≡ false
    → (n : Node) × (get_default_node
          (record { schedulable = ok nodes; first_of_all = first_of_all; ref = ref })
          region
        ≡ ok (some n))
      × IsBest ref (default_pool nodes region) n
unfolding get_default_node
get_default_node-IsBest nodes first_of_all ref region full =
    let (n, found, best) =
      first_ranked-IsBest ref (default_pool nodes region)
        (is_empty-default_pool nodes region full) in
    (n, rw full (rw (default_pool-eq nodes region) (ap ok found)), best)
