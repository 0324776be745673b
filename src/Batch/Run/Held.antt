-- ===== src/Batch/Run/Held.antt =====
-- internal/service/batch.go: no row of a run is lost or stored twice on its way to the database.
use dnsgolang.Base.{
  ℕ, ◌+◌, ◌≤◌, ◌≡◌, refl, sym, ap, ◌∙◌, Bool, true, false, List, [], ◌∷◌, ◌++◌, arith, map, length,
}
use dnsgolang.Batch.Rows.{WorkItem, BatchResult}
use dnsgolang.Batch.Run.{
  Setup, row_of, Phase, probing, counted, sending, Flight, launch, flush, receive, counts, b2n,
  Step, start, stop, count_done, count_result, send, receives, tick, reads_success, writes_progress,
  Steps, none_yet, more, HasLanded,
}
use dnsgolang.Batch.Run.Totals.{
  total, total-changed, total-removed, total-added, flown, IsSame, flush-IsSame, receive-IsSame,
  after_done, after_result,
}
use dnsgolang.Batch.Run.Counts.{
  HasRead, HasRead-le, latency, timed, held, one_each, succeeded, IsCounted-Steps, IsCounted-launch,
}

-- The rows of the items are all there until the run is stopped, and never more than these: so says
-- every sum over them.
abbrev pub IsHeld : Setup → List WorkItem → Flight → Type 0
IsHeld env items s =
    (w : BatchResult → ℕ)
    → (held env w s ≤ total (λ i. w (row_of env i)) items)
      × (s.stopped ≡ false → held env w s ≡ total (λ i. w (row_of env i)) items)

worker_row : Setup → (BatchResult → ℕ) → Phase × WorkItem → ℕ
worker_row env w x = w (row_of env x.1)

held-same :
    (env : Setup) (w : BatchResult → ℕ) (s s' : Flight) → IsSame s s' → held env w s' ≡ held env w s
held-same env w s s' (workers, todo, stopped, _, _, _, _, rows) = omega (
  arith,
  ap (total (λ x. w (row_of env x.1))) workers,
  ap (total (λ i. w (row_of env i))) todo,
  rows w,
)

-- A step keeps every sum, but for the one that drops the items that are still to come.
held-Step :
    (env : Setup) (items : List WorkItem) (w : BatchResult → ℕ) (s s' : Flight)
    → Step env items s s'
    → (held env w s' ≤ held env w s)
      × (s'.stopped ≡ false → (s.stopped ≡ false) × (held env w s' ≡ held env w s))
unfolding counts
held-Step env items w _ _ (start s item rest e room) =
    let f = λ (i : WorkItem). w (row_of env i) in
    let same' : total f rest + total (λ x. f x.1) (s.workers ++ ((probing, item) ∷ [])) + flown w s
        ≡ held env w s =
      omega (
        arith,
        ap (total (λ i. w (row_of env i))) e,
        total-added (λ x. w (row_of env x.1)) s.workers (probing, item),
      ) in
    (omega (arith, same'), λ h. (h, same'))
held-Step env items w _ _ (stop s item rest e asks) = (omega arith, λ h. cc)
held-Step env items w _ _ (count_done s before after item e) =
    let same' =
      total-changed (λ x. w (row_of env x.1)) s.workers before after (probing, item) (counted, item)
        e in
    (omega (arith, same'), λ h. (h, omega (arith, same')))
held-Step env items w _ _ (count_result s before after item e) =
    let same' =
      total-changed (λ x. w (row_of env x.1)) s.workers before after (counted, item) (sending, item)
        e in
    (omega (arith, same'), λ h. (h, omega (arith, same')))
held-Step env items w _ _ (send s before after item e room) =
    let out = total-removed (λ x. w (row_of env x.1)) s.workers before after (sending, item) e in
    let in' = total-added w s.channel (row_of env item) in
    (omega (arith, out, in'), λ h. (h, omega (arith, out, in')))
held-Step env items w _ _ (receives s accepted row rest idle e) =
    let same' = receive-IsSame env accepted row rest s e in
    let h = held-same env w s (receive env accepted row rest s) same' in
    (omega (arith, h), λ k. (sym same'.2 ∙ k, h))
held-Step env items w _ _ (tick s accepted row rest idle e) =
    let same' = flush-IsSame accepted s in
    let h = held-same env w s (flush accepted s) same' in
    (omega (arith, h), λ k. (sym same'.2 ∙ k, h))
held-Step env items w _ _ (reads_success s e) = (omega arith, λ h. (h, refl))
held-Step env items w _ _ (writes_progress s n e) = (omega arith, λ h. (h, refl))

IsHeld-launch : (env : Setup) (items : List WorkItem) → IsHeld env items (launch items)
IsHeld-launch env items w = (omega arith, λ h. omega arith)

IsHeld-Steps :
    (env : Setup) (items : List WorkItem) (n : ℕ) (s s' : Flight)
    → Steps env items n s s'
    → IsHeld env items s
    → IsHeld env items s'
IsHeld-Steps env items _ _ _ (none_yet s) h w = h w
IsHeld-Steps env items _ _ _ (more n s s' s'' steps step) h w =
    let (le, eq) = IsHeld-Steps env items n s s' steps h w in
    let (less, same') = held-Step env items w s' s'' step in
    (omega (arith, le, less), λ k. let (k', e) = same' k in e ∙ eq k')

total_le {ℓ} :
    {A : Type ℓ} (f g : A → ℕ) (xs : List A) → ((x : A) → f x ≤ g x) → total f xs ≤ total g xs
total_le f g [] h = omega arith
total_le f g (x ∷ xs) h = omega (arith, h x, total_le f g xs h)

total-map {ℓ κ} :
    {A : Type ℓ} {B : Type κ} (w : B → ℕ) (f : A → B) (xs : List A)
    → total (λ x. w (f x)) xs ≡ total w (map f xs)
total-map w f [] = refl
total-map w f (x ∷ xs) = omega (arith, total-map w f xs)

total_ones {ℓ} : {A : Type ℓ} (xs : List A) → total (λ x. 1) xs ≡ length xs
total_ones [] = refl
total_ones (x ∷ xs) = omega (arith, total_ones xs)

flown_le :
    (f g : BatchResult → ℕ) (s : Flight) → ((r : BatchResult) → f r ≤ g r) → flown f s ≤ flown g s
flown_le f g s h = omega (
  arith,
  total_le f g s.channel h,
  total_le f g s.buffer h,
  total_le f g s.stored h,
  total_le f g s.lost h,
)

b2n_le : (b : Bool) → b2n b ≤ 1
b2n_le true = omega arith
b2n_le false = omega arith

result_done : (env : Setup) (x : Phase × WorkItem) → after_result env succeeded x ≤ after_done x
result_done env (probing, item) = omega arith
result_done env (counted, item) = omega arith
result_done env (sending, item) = b2n_le (row_of env item).succeeded

done_one : (x : Phase × WorkItem) → after_done x ≤ 1
done_one (probing, item) = omega arith
done_one (counted, item) = omega arith
done_one (sending, item) = omega arith

-- At every moment of a run no more successes are counted than items that are done, and no more of
-- these than there are; a number of successes that the writer has read for the progress is not
-- above the number of items that are done, so the count of failures that it writes is not negative.
pub Steps-success_le :
    (env : Setup) (items : List WorkItem) (n : ℕ) (s : Flight)
    → Steps env items n (launch items) s
    → (s.success_count ≤ s.done_count)
      × (s.done_count ≤ length items)
      × HasRead s.writer s.done_count
Steps-success_le env items n s steps =
    let (d, u, _, _, r) =
      IsCounted-Steps env items n (launch items) s steps (IsCounted-launch env items) in
    let (le, _) =
      IsHeld-Steps env items n (launch items) s steps (IsHeld-launch env items) one_each in
    let successes : s.success_count ≤ s.done_count = omega (
      arith,
      d,
      u,
      total_le (after_result env succeeded) after_done s.workers (result_done env),
      flown_le succeeded one_each s (λ r. b2n_le r.succeeded),
    ) in
    (
      successes,
      omega (arith, d, le, total_ones items, total_le after_done (λ x. 1) s.workers done_one),
      HasRead-le s.writer s.success_count s.done_count successes r,
    )

-- A run that was not stopped and whose writes all succeeded ends with exactly the rows of its items
-- in the database, each as often as its item is there: so says every sum over rows. The counters
-- are those of the rows, whatever the order in which the workers came to their ends.
pub landed-rows :
    (env : Setup) (items : List WorkItem) (n : ℕ) (s : Flight)
    → Steps env items n (launch items) s
    → HasLanded s
    → s.stopped ≡ false
    → s.lost ≡ []
    → ((w : BatchResult → ℕ) → total w s.stored ≡ total w (map (row_of env) items))
      × (s.done_count ≡ length items)
      × (s.success_count ≡ total succeeded (map (row_of env) items))
      × (s.latency_sum ≡ total latency (map (row_of env) items))
      × (s.latency_count ≡ total timed (map (row_of env) items))
landed-rows env items n s steps (todo, workers, channel, buffer, idle) go kept =
    let (d, u, l, c, _) =
      IsCounted-Steps env items n (launch items) s steps (IsCounted-launch env items) in
    (
      rows,
      d
          ∙ omega (
            arith,
            ap (total after_done) workers,
            out one_each,
            total_ones items,
            rows one_each,
            ones,
          ),
      u
          ∙ omega (
            arith,
            ap (total (after_result env succeeded)) workers,
            out succeeded,
            rows succeeded,
          ),
      l ∙ omega (arith, ap (total (after_result env latency)) workers, out latency, rows latency),
      c ∙ omega (arith, ap (total (after_result env timed)) workers, out timed, rows timed),
    )
  where
    out : (w : BatchResult → ℕ) → flown w s ≡ total w s.stored
    out w = omega (arith, ap (total w) channel, ap (total w) buffer, ap (total w) kept)

    rows : (w : BatchResult → ℕ) → total w s.stored ≡ total w (map (row_of env) items)
    rows w =
        let (_, eq) = IsHeld-Steps env items n (launch items) s steps (IsHeld-launch env items) w in
        omega (
          arith,
          eq go,
          out w,
          ap (total (λ i. w (row_of env i))) todo,
          ap (total (λ x. w (row_of env x.1))) workers,
          total-map w (row_of env) items,
        )

    ones : total one_each (map (row_of env) items) ≡ length items
    ones = sym (total-map one_each (row_of env) items) ∙ total_ones items
