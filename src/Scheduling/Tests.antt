-- ===== src/Scheduling/Tests.antt =====
-- internal/service/scheduling.go: the theorems of the scheduler at two nodes in two regions.
use dnsgolang.Base.{
  ℕ, ◌≡◌, refl, Bool, true, false, none, some, List, [], ◌∷◌, pos, ◌≤◌, length, get_elem?,
  if◌then◌else◌, text_beq, text_eq,
}
use dnsgolang.Base.Text.{Text, txt}
use dnsgolang.Base.Members.{In}
use dnsgolang.Scheduling.Types.{local, mqtt, online, Node, Region, ok}
use dnsgolang.Scheduling.Nodes.{
  node_online, goes_before, single_pool, get_default_node, get_single_execution_node, DefaultReads,
}
use dnsgolang.Scheduling.Nodes.Rank.{IsBest}
use dnsgolang.Scheduling.Nodes.Choice.{
  regional, wants, FitsRegion, default_pool, get_single_execution_node-IsBest,
  get_default_node-IsBest,
}
use dnsgolang.Scheduling.Regions.{region_rank, rank_before, default_region_codes}
use dnsgolang.Scheduling.Regions.Defaults.{default_region_codes-first}
use dnsgolang.Scheduling.Summary.{
  success, failed, ExecutionRegion, partial, refresh_execution_status,
}
use dnsgolang.Scheduling.Summary.Status.{refresh_execution_status-eq}

abbrev probe : Node
probe = record {
  id = 7;
  code = txt "probe-7";
  name = txt "Probe 7";
  region_code = txt "cn-east";
  transport = mqtt;
  status = online;
  last_heartbeat = some 990000000;
  is_default = false;
}

abbrev server : Node
server = record {
  id = 1;
  code = txt "local-1";
  name = txt "Server";
  region_code = txt "global";
  transport = local;
  status = online;
  last_heartbeat = none;
  is_default = true;
}

abbrev nodes : List Node
nodes = server ∷ probe ∷ []

abbrev now : ℕ
now = 1000000000

abbrev reads : DefaultReads
reads = record { schedulable = ok nodes; first_of_all = ok server; ref = now }

abbrev region_of : ℕ → Text → Region
region_of id code = record {
  id = id;
  code = code;
  name = code;
  display_order = pos id;
  map_lng = pos 0;
  map_lat = pos 0;
}

abbrev regions : List Region
regions = region_of 1 (txt "global") ∷ region_of 2 (txt "cn-east") ∷ []

get_single_execution_node-IsBest_example :
    (n : Node) × (get_single_execution_node (ok nodes) now reads (txt "cn-east") (txt "remote")
      ≡ ok (some n))
    × In n nodes
    × FitsRegion (txt "cn-east") n
    × ((m : Node)
        → In m (regional nodes (txt "cn-east"))
        → wants (txt "remote") m ≡ true
        → wants (txt "remote") n ≡ true)
    × ((m : Node)
        → In m (single_pool nodes (txt "cn-east") (txt "remote"))
        → node_online m now ≡ true
        → (node_online n now ≡ true) × (goes_before now m n ≡ false))
unfolding text_beq
get_single_execution_node-IsBest_example =
    get_single_execution_node-IsBest nodes now reads (txt "cn-east") (txt "remote") refl

get_default_node-IsBest_example :
    (n : Node) × (get_default_node reads (txt "cn-west") ≡ ok (some n))
    × IsBest now (default_pool nodes (txt "cn-west")) n
get_default_node-IsBest_example = get_default_node-IsBest nodes (ok server) now (txt "cn-west") refl

default_region_codes-first_example :
    (length (default_region_codes regions (ok nodes) now 2) ≤ 2)
    × ((r : Region) × In r regions
        × (get_elem? (default_region_codes regions (ok nodes) now 2) 0 ≡ some r.code)
        × ((q : Region)
            → In q regions
            → (rank_before (region_rank nodes now q) (region_rank nodes now r) ≡ false)
              × ((region_rank nodes now q).online_remote
                  ≤ (region_rank nodes now r).online_remote)))
default_region_codes-first_example = default_region_codes-first regions (ok nodes) now 2 refl

abbrev row_of : Text → Bool → ExecutionRegion
row_of code succeeded = record {
  region_code = code;
  region_name = code;
  map_lng = pos 0;
  map_lat = pos 0;
  node_code = [];
  node_name = [];
  node_transport = none;
  status = if succeeded then success else failed;
  success = succeeded;
}

abbrev rows : List ExecutionRegion
rows = row_of (txt "global") true ∷ row_of (txt "cn-east") false ∷ []

refresh_execution_status-eq_example :
    let u = refresh_execution_status now rows in
    (u.status ≡ partial)
    × (u.task_status ≡ u.status)
    × (u.finished_at ≡ some now)
    × (u.task_last_run_at ≡ u.finished_at)
    × (u.success_region_count ≤ u.total_region_count)
refresh_execution_status-eq_example = refresh_execution_status-eq now rows
