-- ===== src/Tasks/Settled.antt =====
-- internal/service/tasks.go: rows that have a result keep one, and the summary of an execution stays
-- that of its rows, whatever happens to the store.
use dnsgolang.Base.{
  ℕ, ◌≡◌, ◌≢◌, refl, sym, ap, ◌∙◌, inl, inr, Bool, true, false, not, ◌&&◌, ◌||◌, Option, some, List,
  [], ◌∷◌, nat_beq, nat_beq_iff, any, all, arith, Bool-cases, subst,
}
use dnsgolang.Scheduling.Summary.{is_open, refresh_execution_status}
use dnsgolang.Tasks.Rows.{
  RegionRow, ProbeResult, Store, settled_row, update_row, put, regions_of, find_row, success,
  failed, region_status,
}
use dnsgolang.Tasks.Events.{Event, Effect, same, settled, handle, handle_all, handle-Effect}

-- Every row with this id has a result.
abbrev pub has_result : ℕ → List RegionRow → Bool
has_result id rows = all (λ r. not (nat_beq r.id id) || not (is_open r.region.status)) rows

closed_status : (p : ProbeResult) → is_open (region_status p.status) ≡ false
closed_status p = elim p.status as (λ x. is_open (region_status x) ≡ false) [
  | success ↦ refl
  | failed ↦ refl
]

has_result-update :
    (id k : ℕ) (p : ProbeResult) (rows : List RegionRow)
    → has_result id rows ≡ true
    → has_result id (update_row k (settled_row p) rows) ≡ true
unfolding update_row settled_row
has_result-update id k p [] h = refl
has_result-update id k p (r ∷ rs) h = ground (arith, has_result-update id k p rs, closed_status p)

-- An update of the rows of an id leaves no row of that id open.
pub has_result-settled :
    (id : ℕ) (p : ProbeResult) (rows : List RegionRow)
    → has_result id (update_row id (settled_row p) rows) ≡ true
unfolding update_row settled_row
has_result-settled id p [] = refl
has_result-settled id p (r ∷ rs) = ground (arith, has_result-settled id p rs, closed_status p)

pub has_result-Effect :
    (id : ℕ) (s s' : Store)
    → Effect s s'
    → has_result id s.rows ≡ true
    → has_result id s'.rows ≡ true
has_result-Effect id s s' (same e f) h = rw e h
has_result-Effect id s s' (settled now k row p found e f) h =
    rw e (has_result-update id k p s.rows h)

pub has_result-handle_all :
    (id : ℕ) (es : List Event) (s : Store)
    → has_result id s.rows ≡ true
    → has_result id (handle_all es s).rows ≡ true
unfolding handle_all
has_result-handle_all id [] s h = h
has_result-handle_all id (e ∷ es) s h =
    has_result-handle_all id es (handle e s)
      (has_result-Effect id s (handle e s) (handle-Effect e s) h)

-- Whether a row of the execution has this id.
abbrev pub belongs : ℕ → ℕ → List RegionRow → Bool
belongs execution_id id rows =
    any (λ r. nat_beq r.id id && nat_beq r.execution_id execution_id) rows

pub settled_row-keeps :
    (p : ProbeResult) (r : RegionRow)
    → ((settled_row p r).id ≡ r.id) × ((settled_row p r).execution_id ≡ r.execution_id)
unfolding settled_row
settled_row-keeps p r = (refl, refl)

-- A change of rows that keeps ids and executions keeps which ids belong to an execution.
pub belongs-update :
    (x id k : ℕ) (f : RegionRow → RegionRow) (rows : List RegionRow)
    → ((r : RegionRow) → ((f r).id ≡ r.id) × ((f r).execution_id ≡ r.execution_id))
    → belongs x id (update_row k f rows) ≡ belongs x id rows
unfolding update_row
belongs-update x id k f [] h = refl
belongs-update x id k f (r ∷ rs) h = ground (arith, belongs-update x id k f rs h, h r)

pub belongs-Effect :
    (execution_id id : ℕ) (s s' : Store)
    → Effect s s'
    → belongs execution_id id s'.rows ≡ belongs execution_id id s.rows
belongs-Effect x id s s' (same e f) = ap (belongs x id) e
belongs-Effect x id s s' (settled now k row p found e f) =
    ap (belongs x id) e ∙ belongs-update x id k (settled_row p) s.rows (settled_row-keeps p)

-- No two rows have the same id.
abbrev pub HasIds : List RegionRow → Type 0
HasIds [] = Unit
HasIds (r ∷ rs) = (any (λ q. nat_beq q.id r.id) rs ≡ false) × HasIds rs

any_id-update :
    (k i : ℕ) (f : RegionRow → RegionRow) (rows : List RegionRow)
    → ((r : RegionRow) → ((f r).id ≡ r.id) × ((f r).execution_id ≡ r.execution_id))
    → any (λ q. nat_beq q.id i) (update_row k f rows) ≡ any (λ q. nat_beq q.id i) rows
unfolding update_row
any_id-update k i f [] h = refl
any_id-update k i f (r ∷ rs) h = ground (arith, any_id-update k i f rs h, h r)

pub HasIds-update :
    (k : ℕ) (f : RegionRow → RegionRow) (rows : List RegionRow)
    → ((r : RegionRow) → ((f r).id ≡ r.id) × ((f r).execution_id ≡ r.execution_id))
    → HasIds rows
    → HasIds (update_row k f rows)
unfolding update_row
HasIds-update k f [] h ids = tt
HasIds-update k f (r ∷ rs) h ids =
    ground (arith, ids, HasIds-update k f rs h, any_id-update k r.id f rs h, h r)

pub HasIds-Effect : (s s' : Store) → Effect s s' → HasIds s.rows → HasIds s'.rows
HasIds-Effect s s' (same e f) h = rw e h
HasIds-Effect s s' (settled now k row p found e f) h =
    rw e (HasIds-update k (settled_row p) s.rows (settled_row-keeps p) h)

update-absent :
    (k : ℕ) (p : ProbeResult) (rows : List RegionRow)
    → any (λ q. nat_beq q.id k) rows ≡ false
    → update_row k (settled_row p) rows ≡ rows
unfolding update_row
update-absent k p [] h = refl
update-absent k p (r ∷ rs) h = ground (arith, update-absent k p rs)

-- An update of a row leaves the rows of the other executions as they are.
regions_of-update :
    (execution_id k : ℕ) (p : ProbeResult) (row : RegionRow) (rows : List RegionRow)
    → HasIds rows
    → find_row k rows ≡ some row
    → nat_beq row.execution_id execution_id ≡ false
    → regions_of execution_id (update_row k (settled_row p) rows) ≡ regions_of execution_id rows
unfolding update_row settled_row
regions_of-update x k p row [] h found other = refl
regions_of-update x k p row (r ∷ rs) h found other =
    ground (arith, regions_of-update x k p row rs, update-absent k p rs, nat_beq_iff r.id k)

-- The summary that is stored for an execution is that of its rows, at some time.
abbrev pub IsSummed : ℕ → Store → Type 0
IsSummed execution_id s =
    (t : ℕ) × (s.summaries execution_id
      ≡ some (refresh_execution_status t (regions_of execution_id s.rows)))

pub put_self {ℓ} : {A : Type ℓ} (k : ℕ) (v : A) (t : ℕ → Option A) → put k v t k ≡ some v
put_self k v t = rw ((nat_beq_iff k k).1 refl)

put_other {ℓ} :
    {A : Type ℓ} (k j : ℕ) (v : A) (t : ℕ → Option A) → nat_beq k j ≡ false → put k v t j ≡ t j
put_other k j v t h = elim (Bool-cases (nat_beq j k)) [
  | inl e ↦ absurd (omega (arith, (nat_beq_iff j k).0 e, differ))
  | inr e ↦ rw e
]
  where
    differ : k ≢ j
    differ e = let bad : true ≡ false = sym ((nat_beq_iff k j).1 e) ∙ h in cc

pub IsSummed-Effect :
    (execution_id : ℕ) (s s' : Store)
    → HasIds s.rows
    → Effect s s'
    → IsSummed execution_id s
    → IsSummed execution_id s'
IsSummed-Effect x s s' ids (same e f) (t, h) = (t, rw (e, f) h)
IsSummed-Effect x s s' ids (settled now k row p found e f) (t, h) =
    elim (Bool-cases (nat_beq row.execution_id x)) [
      | inl here ↦ (
        now,
        let there = (nat_beq_iff row.execution_id x).0 here in
            ap (λ g. g x) f
            ∙ subst
                (λ y.
                  put y (refresh_execution_status now (regions_of y s'.rows)) s.summaries x
                  ≡ some (refresh_execution_status now (regions_of x s'.rows)))
                (sym there) (put_self x _ s.summaries),
      )
      | inr other ↦ (
        t,
        ap (λ g. g x) f
            ∙ put_other row.execution_id x _ s.summaries other
            ∙ h
            ∙ ap (λ rs. some (refresh_execution_status t rs))
                (sym (ap (regions_of x) e ∙ regions_of-update x k p row s.rows ids found other)),
      )
    ]

-- The summary of an execution stays that of its rows through all results and sweeps, also where other
-- events come between the rounds of a sweep.
pub IsSummed-handle_all :
    (execution_id : ℕ) (es : List Event) (s : Store)
    → HasIds s.rows
    → IsSummed execution_id s
    → IsSummed execution_id (handle_all es s)
unfolding handle_all
IsSummed-handle_all x [] s ids h = h
IsSummed-handle_all x (e ∷ es) s ids h =
    IsSummed-handle_all x es (handle e s) (HasIds-Effect s (handle e s) (handle-Effect e s) ids)
      (IsSummed-Effect x s (handle e s) ids (handle-Effect e s) h)
