-- ===== src/Scheduling/Regions/Defaults.antt =====
-- internal/service/scheduling.go: which region `defaultRegionCodes` puts first.
use dnsgolang.Base.{
  take, ℕ, suc, zero, ◌≤◌, ◌≡◌, refl, ap, ◌∙◌, inl, inr, true, false, List, [], ◌∷◌, map, arith,
  is_empty, length, length-take_le, get_elem?, some, nat_beq, if◌then◌else◌,
}
use dnsgolang.Base.Text.{Text}
use dnsgolang.Base.Sort.{sort_by, IsSorted, sort_by-IsSorted}
use dnsgolang.Base.Members.{In, In-sort_by, sort_by-In, All-In}
use dnsgolang.Scheduling.Types.{Region, Node, Result}
use dnsgolang.Scheduling.Regions.{
  RegionRank, region_rank, rank_before, ranked, or_none, default_region_codes,
}

rank_before_asym : (x y : RegionRank) → rank_before x y ≡ true → rank_before y x ≡ false
unfolding rank_before
rank_before_asym x y h = ground arith

rank_before_step :
    (x y z : RegionRank)
    → rank_before y x ≡ false
    → rank_before z y ≡ false
    → rank_before z x ≡ false
unfolding rank_before
rank_before_step x y z h k = ground arith

-- A region of the list that no other region of it ranks before.
abbrev pub IsFirst : List RegionRank → RegionRank → Type 0
IsFirst rs r = In r rs × ((s : RegionRank) → In s rs → rank_before s r ≡ false)

head_first :
    (r : RegionRank) (rs : List RegionRank)
    → IsSorted rank_before (r ∷ rs)
    → (s : RegionRank) → In s (r ∷ rs)
    → rank_before s r ≡ false
unfolding rank_before
head_first r rs o s (inl e) = rw e (ground arith)
head_first r rs o s (inr h) = All-In (λ y. rank_before y r ≡ false) s rs o.0 h

sorted-IsFirst :
    (rs : List RegionRank)
    → is_empty rs ≡ false
    → (r : RegionRank) × ((rest : List RegionRank) × (sort_by rank_before rs ≡ r ∷ rest))
      × IsFirst rs r
sorted-IsFirst [] h = cc
sorted-IsFirst (x ∷ xs) h = from (sort_by rank_before (x ∷ xs)) refl
  where
    from :
        (out : List RegionRank)
        → sort_by rank_before (x ∷ xs) ≡ out
        → (r : RegionRank) × ((rest : List RegionRank) × (sort_by rank_before (x ∷ xs) ≡ r ∷ rest))
          × IsFirst (x ∷ xs) r
    from [] e = absurd (rw e at (sort_by-In rank_before x (x ∷ xs) (inl refl)))
    from (r ∷ rest) e =
        let order = sort_by-IsSorted rank_before rank_before_asym rank_before_step (x ∷ xs) in
        (
          r,
          (rest, e),
          (
            In-sort_by rank_before r (x ∷ xs) (rw e (inl refl)),
            (λ s i.
                head_first r rest (rw e at order) s
                  (rw e at (sort_by-In rank_before s (x ∷ xs) i))),
          ),
        )

In-map :
    (nodes : List Node) (ref : ℕ) (s : RegionRank) (rs : List Region)
    → In s (map (region_rank nodes ref) rs)
    → (r : Region) × In r rs × (s ≡ region_rank nodes ref r)
In-map nodes ref s [] h = absurd h
In-map nodes ref s (r ∷ rs) (inl e) = (r, inl refl, e)
In-map nodes ref s (r ∷ rs) (inr h) = let (q, i, e) = In-map nodes ref s rs h in (q, inr i, e)

map-In :
    (nodes : List Node) (ref : ℕ) (r : Region) (rs : List Region)
    → In r rs
    → In (region_rank nodes ref r) (map (region_rank nodes ref) rs)
map-In nodes ref r [] h = h
map-In nodes ref r (q ∷ rs) (inl e) = inl (ap (region_rank nodes ref) e)
map-In nodes ref r (q ∷ rs) (inr h) = inr (map-In nodes ref r rs h)

remote_first : (x y : RegionRank) → rank_before x y ≡ false → x.online_remote ≤ y.online_remote
unfolding rank_before
remote_first x y h = ground arith

head_take :
    (limit : ℕ) (c : Text) (cs : List Text)
    → get_elem? (take (if nat_beq limit 0 then 1 else limit) (c ∷ cs)) 0 ≡ some c
head_take zero c cs = refl
head_take (suc n) c cs = ground arith

region_rank-region :
    (nodes : List Node) (ref : ℕ) (r : Region) → (region_rank nodes ref r).region ≡ r
unfolding region_rank
region_rank-region nodes ref r = refl

-- The default codes are at most one, or at most the positive limit. If there are regions, the
-- first code is that of a region which no other one ranks before; in particular it has an online
-- remote node if any of the regions has one.
pub default_region_codes-first :
    (regions : List Region) (schedulable : Result (List Node)) (ref limit : ℕ)
    → is_empty regions ≡ false
    → (length (default_region_codes regions schedulable ref limit)
        ≤ (if nat_beq limit 0 then 1 else limit))
      × ((r : Region) × In r regions
          × (get_elem? (default_region_codes regions schedulable ref limit) 0 ≡ some r.code)
          × ((q : Region)
              → In q regions
              → (rank_before
                    (region_rank (or_none schedulable) ref q)
                    (region_rank (or_none schedulable) ref r)
                  ≡ false)
                × ((region_rank (or_none schedulable) ref q).online_remote
                    ≤ (region_rank (or_none schedulable) ref r).online_remote)))
unfolding default_region_codes ranked
default_region_codes-first regions schedulable ref limit full =
    let nodes = or_none schedulable in
    let ranks = map (region_rank nodes ref) regions in
    let (x, (rest, sorted), best) = sorted-IsFirst ranks (mapped regions full) in
    let (r, i, e) = In-map nodes ref x regions best.0 in
    (
      length-take_le _ _,
      (
        r,
        i,
        rw sorted (
            head_take limit x.region.code _
            ∙ ap (λ (y : RegionRank). some y.region.code) e
            ∙ ap (λ (y : Region). some y.code) (region_rank-region nodes ref r)),
        (λ q j.
            let behind =
              rw e at (best.1 (region_rank nodes ref q) (map-In nodes ref q regions j)) in
            (behind, remote_first _ _ behind)),
      ),
    )
  where
    mapped :
        (rs : List Region)
        → is_empty rs ≡ false
        → is_empty (map (region_rank (or_none schedulable) ref) rs) ≡ false
    mapped [] h = h
    mapped (r ∷ rs) h = refl
