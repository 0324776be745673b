-- ===== src/Scheduling/Regions.antt =====
-- internal/service/scheduling.go: the regions that a task covers, by its own codes or by default.
pub mod Codes
pub mod Defaults
use dnsgolang.Base.{
  ℕ, ◌≡◌, Bool, true, false, not, ◌&&◌, Option, none, some, List, [], ◌∷◌, map, if◌then◌else◌, ltb,
  ltb_ℤ, nat_beq, ◌==◌, text_eq, keep, any, is_empty, length, take,
}
use dnsgolang.Base.Text.{Text, txt}
use dnsgolang.Base.Sets.{has}
use dnsgolang.Base.Sort.{sort_by}
use dnsgolang.Scheduling.Types.{Node, Region, Result, ok, err, ◌>>=◌}
use dnsgolang.Scheduling.Nodes.{is_local, node_online, bool_to_int}

pub record RegionRank : Type 0 where
  pub region : Region
  pub online_remote : ℕ
  pub online : ℕ
  pub has_nodes : ℕ
  pub is_global : ℕ

-- The flags that the loop over the nodes of one region sets.
unfoldable pub region_rank : List Node → ℕ → Region → RegionRank
region_rank nodes ref r =
    let own = keep (λ n. n.region_code == r.code) nodes in
    record {
      region = r;
      online_remote = bool_to_int (any (λ n. node_online n ref && not (is_local n.transport)) own);
      online = bool_to_int (any (λ n. node_online n ref) own);
      has_nodes = bool_to_int (not (is_empty own));
      is_global = bool_to_int (r.code == txt "global");
    }

unfoldable pub rank_before : RegionRank → RegionRank → Bool
rank_before x y =
    if not (nat_beq x.online_remote y.online_remote)
    then ltb y.online_remote x.online_remote
    else if not (nat_beq x.online y.online)
    then ltb y.online x.online
    else if not (nat_beq x.has_nodes y.has_nodes)
    then ltb y.has_nodes x.has_nodes
    else if not (nat_beq x.is_global y.is_global)
    then ltb x.is_global y.is_global
    else if ltb_ℤ x.region.display_order y.region.display_order
    then true
    else if ltb_ℤ y.region.display_order x.region.display_order
    then false
    else ltb x.region.id y.region.id

-- The nodes that could be read; an error is logged and leaves none.
abbrev pub or_none : Result (List Node) → List Node
or_none (ok nodes) = nodes
or_none (err e) = []

unfoldable pub ranked : List Region → List Node → ℕ → List RegionRank
ranked regions nodes ref = sort_by rank_before (map (region_rank nodes ref) regions)

unfoldable pub default_region_codes : List Region → Result (List Node) → ℕ → ℕ → List Text
default_region_codes regions schedulable ref limit =
    take (if nat_beq limit 0 then 1 else limit)
      (map (λ r. r.region.code) (ranked regions (or_none schedulable) ref))

-- The loop that keeps the codes which are active and not yet seen.
unfoldable pub valid_codes : List Text → List Text → List Text → List Text
valid_codes active seen [] = []
valid_codes active seen (c ∷ cs) =
    let taken = c ∷ valid_codes active (c ∷ seen) cs in
    let skipped = valid_codes active seen cs in
    if has c active && not (has c seen) then taken else skipped

abbrev pub cap_length : ℕ → List Text → List Text
cap_length limit xs = if ltb 0 limit && ltb limit (length xs) then take limit xs else xs

unfoldable pub normalize_region_codes :
    Result (List Region) → Result (List Node) → ℕ → List Text → ℕ → Result (List Text)
normalize_region_codes active_regions schedulable ref codes limit = active_regions >>= λ regions.
    let normalized = valid_codes (map (λ r. r.code) regions) [] codes in
    if not (is_empty normalized)
    then ok (cap_length limit normalized)
    else ok (cap_length limit (default_region_codes regions schedulable ref limit))
