-- ===== src/Scheduling/Nodes.antt =====
-- internal/service/scheduling.go: the rank of a node and the choice of the node that executes.
pub mod Rank
pub mod Choice
use dnsgolang.Base.{
  ℕ, ◌+◌, ◌*◌, Bool, true, false, not, ◌&&◌, ◌||◌, Option, none, some, List, [], ◌∷◌, if◌then◌else◌,
  leb, ltb, nat_beq, ◌==◌, text_eq, keep, is_empty,
}
use dnsgolang.Base.Text.{Text, txt}
use dnsgolang.Base.Sort.{sort_by}
use dnsgolang.Scheduling.Types.{
  Transport, local, mqtt, NodeStatus, online, offline, maintenance, Node, Result, ok, err, ◌>>=◌,
}

abbrev pub is_local : Transport → Bool
is_local local = true
is_local mqtt = false

abbrev pub is_online : NodeStatus → Bool
is_online online = true
is_online offline = false
is_online maintenance = false

abbrev pub second : ℕ
second = 1000000

abbrev pub local_heartbeat_grace : ℕ
local_heartbeat_grace = 900

-- `!hb.Before(ref.Add(-grace))`, with the grace period on the other side of the comparison.
unfoldable pub heartbeat_fresh : Node → ℕ → Bool
heartbeat_fresh node ref = elim node.last_heartbeat [
  | none ↦ false
  | some hb ↦
      leb ref (hb + (if is_local node.transport then local_heartbeat_grace else 90) * second)
]

unfoldable pub node_online : Node → ℕ → Bool
unfolding heartbeat_fresh
node_online node ref = is_online node.status && heartbeat_fresh node ref

abbrev pub bool_to_int : Bool → ℕ
bool_to_int b = if b then 1 else 0

pub record RankTuple : Type 0 where
  pub a : ℕ
  pub b : ℕ
  pub c : ℕ
  pub d : ℕ
  pub id : ℕ

unfoldable pub rank_single_node : Node → ℕ → RankTuple
rank_single_node node ref = record {
  a = bool_to_int (not (node_online node ref));
  b = bool_to_int (not (is_online node.status));
  c = bool_to_int (is_local node.transport);
  d = bool_to_int (not node.is_default);
  id = node.id;
}

unfoldable pub rank_tuple_less : RankTuple → RankTuple → Bool
rank_tuple_less x y =
    if not (nat_beq x.a y.a)
    then ltb x.a y.a
    else if not (nat_beq x.b y.b)
    then ltb x.b y.b
    else if not (nat_beq x.c y.c)
    then ltb x.c y.c
    else if not (nat_beq x.d y.d)
    then ltb x.d y.d
    else ltb x.id y.id

-- The order that the closures of both sorts pass to `sort.Slice`.
unfoldable pub goes_before : ℕ → Node → Node → Bool
unfolding rank_tuple_less rank_single_node
goes_before ref x y = rank_tuple_less (rank_single_node x ref) (rank_single_node y ref)

-- `&pool[0]` after the sort; `none` is Go's panic for an index out of range.
unfoldable pub first_ranked : ℕ → List Node → Option Node
first_ranked ref pool = elim (sort_by (goes_before ref) pool) [ [] ↦ none | n ∷ ns ↦ some n ]

abbrev pub in_region : Text → List Node → List Node
in_region region_code nodes = keep (λ n. n.region_code == region_code) nodes

-- What `getDefaultNode` reads: the schedulable nodes, the first node of all by
-- `is_default DESC, id ASC`, and the clock.
pub record DefaultReads : Type 0 where
  pub schedulable : Result (List Node)
  pub first_of_all : Result Node
  pub ref : ℕ

-- The outer `Option` is a panic.
unfoldable pub get_default_node : DefaultReads → Text → Result (Option Node)
get_default_node reads region_code = reads.schedulable >>= λ nodes.
    if is_empty nodes
    then (reads.first_of_all >>= λ node. ok (some node))
    else ok (
        first_ranked reads.ref (
          if is_empty region_code || is_empty (in_region region_code nodes)
          then nodes
          else in_region region_code nodes))

-- The nodes that the mode prefers, or the whole pool if there are none.
abbrev pub prefer : (Node → Bool) → List Node → List Node
prefer p pool = if is_empty (keep p pool) then pool else keep p pool

unfoldable pub by_mode : Text → List Node → List Node
by_mode mode pool =
    if mode == txt "local"
    then prefer (λ n. is_local n.transport) pool
    else if mode == txt "remote"
    then prefer (λ n. not (is_local n.transport)) pool
    else pool

unfoldable pub single_pool : List Node → Text → Text → List Node
single_pool nodes region_code mode =
    by_mode mode (if is_empty region_code then nodes else in_region region_code nodes)

unfoldable pub get_single_execution_node :
    Result (List Node) → ℕ → DefaultReads → Text → Text → Result (Option Node)
get_single_execution_node schedulable ref reads region_code mode = schedulable >>= λ nodes.
    let pool = single_pool nodes region_code mode in
    if is_empty pool
    then get_default_node reads region_code
    else ok (first_ranked ref (prefer (λ n. node_online n ref) pool))
