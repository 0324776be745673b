-- ===== src/Trust/Build/Resume.antt =====
-- internal/service/trust.go: a build job that was interrupted between two chunks.
use dnsgolang.Base.{
  ℕ, suc, zero, ◌+◌, ◌-◌, ◌≤◌, ◌≡◌, refl, sym, ap, ◌∙◌, Option, some, List, arith, ◌≢◌, inr, subst,
}
use dnsgolang.Base.Text.{Text}
use dnsgolang.Trust.Build.{
  Services, Run, Progress, ongoing, finished, unreadable, panicked, run_chunk, run_chunks,
  run_lines, total_chunks, chunk, and_then, complete, checkpoint, BuildJob, running, begin, limited,
  read_domain_file, run_trust_build_job,
}
use dnsgolang.Trust.Build.Chunks.{chunk-eq}

module _ {W : Type 0} (services : Services W) (lines : List Text) where
  -- A round that goes on leaves the checkpoint behind its chunk, and the size of the chunks.
  run_chunk-next :
      (i : ℕ) (r s : Run W)
      → run_chunk services lines i r ≡ ongoing s
      → (s.job.processed_chunks ≡ i + 1) × (s.job.chunk_size ≡ r.job.chunk_size)
  unfolding run_chunk checkpoint
  run_chunk-next i r s h = ground (arith, h)

  and_then_assoc :
      (p : Progress W) (f g : Run W → Progress W)
      → and_then (and_then p f) g ≡ and_then p (λ s. and_then (f s) g)
  and_then_assoc (ongoing t) f g = refl
  and_then_assoc (finished t) f g = refl
  and_then_assoc (unreadable t) f g = refl
  and_then_assoc panicked f g = refl

  and_then_cong :
      (p : Progress W) (f g : Run W → Progress W)
      → ((s : Run W) → f s ≡ g s)
      → and_then p f ≡ and_then p g
  and_then_cong (ongoing t) f g same = same t
  and_then_cong (finished t) f g same = refl
  and_then_cong (unreadable t) f g same = refl
  and_then_cong panicked f g same = refl

  -- Rounds one after the other: `m` of them and then `n` more are `m + n`.
  run_chunks-add :
      (m n i : ℕ) (r : Run W)
      → run_chunks services lines (m + n) i r
        ≡ and_then (run_chunks services lines m i r) (run_chunks services lines n (i + m))
  unfolding run_chunks
  run_chunks-add zero n i r =
      let e : 0 + n ≡ n = omega arith in
      let f : i ≡ i + 0 = omega arith in
      ap (λ k. run_chunks services lines k i r) e ∙ ap (λ j. run_chunks services lines n j r) f
  run_chunks-add (suc m) n i r =
      let e : suc m + n ≡ suc (m + n) = omega arith in
      let f : (i + 1) + m ≡ i + suc m = omega arith in
      let step = run_chunk services lines i r in
      ap (λ k. run_chunks services lines k i r) e
      ∙ and_then_cong step _ _ (λ s. run_chunks-add m n (i + 1) s)
      ∙ ap
          (λ j.
            and_then step (λ s.
              and_then (run_chunks services lines m (i + 1) s) (run_chunks services lines n j)))
          f
      ∙ sym (
          and_then_assoc step (run_chunks services lines m (i + 1))
            (run_chunks services lines n (i + suc m)))

  run_chunks-checkpoint :
      (m i : ℕ) (r s : Run W)
      → r.job.processed_chunks ≡ i
      → run_chunks services lines m i r ≡ ongoing s
      → (s.job.processed_chunks ≡ i + m) × (s.job.chunk_size ≡ r.job.chunk_size)
  unfolding run_chunks
  run_chunks-checkpoint zero i r s start h =
      let same : s ≡ r = cc in
      let e : i ≡ i + 0 = omega arith in
      (ap (λ x. x.job.processed_chunks) same ∙ start ∙ e, ap (λ x. x.job.chunk_size) same)
  run_chunks-checkpoint (suc m) i r s start h =
      from (run_chunk services lines i r) refl
        (λ t p rest. run_chunks-checkpoint m (i + 1) t s p rest)
    where
      from :
          (p : Progress W)
          → run_chunk services lines i r ≡ p
          → ((t : Run W)
              → t.job.processed_chunks ≡ i + 1
              → run_chunks services lines m (i + 1) t ≡ ongoing s
              → (s.job.processed_chunks ≡ (i + 1) + m) × (s.job.chunk_size ≡ t.job.chunk_size))
          → (s.job.processed_chunks ≡ i + suc m) × (s.job.chunk_size ≡ r.job.chunk_size)
      from (finished t) e later = let bad : finished t ≡ ongoing s = rw e at h in cc
      from (unreadable t) e later = let bad : unreadable t ≡ ongoing s = rw e at h in cc
      from panicked e later = let bad : panicked ≡ ongoing s = rw e at h in cc
      from (ongoing t) e later =
          let rest : run_chunks services lines m (i + 1) t ≡ ongoing s = rw e at h in
          let (p, c) = run_chunk-next i r t e in
          let (q, d) = later t p rest in
          let f : (i + 1) + m ≡ i + suc m = omega arith in (q ∙ f, d ∙ c)

  -- The loop after some rounds that went on, and did not go past the last chunk, does what was left.
  run_lines-resumed :
      (m : ℕ) (r s : Run W)
      → run_chunks services lines m r.job.processed_chunks r ≡ ongoing s
      → r.job.processed_chunks + m ≤ total_chunks r.job.chunk_size lines
      → run_lines services lines s ≡ run_lines services lines r
  unfolding run_lines
  run_lines-resumed m r s went within =
      let start = r.job.processed_chunks in
      let total = total_chunks r.job.chunk_size lines in
      let (at, size) = run_chunks-checkpoint m start r s refl went in
      let n = total - (start + m) in
      let left : total - start ≡ m + n = omega (arith, within) in
      let again : run_chunks services lines
            (total_chunks s.job.chunk_size lines - s.job.processed_chunks) s.job.processed_chunks s
          ≡ run_chunks services lines n (start + m) s =
        ap
          (λ k.
            run_chunks services lines (total_chunks k lines - s.job.processed_chunks)
              s.job.processed_chunks s)
          size
        ∙ ap (λ j. run_chunks services lines (total - j) j s) at in
      let through : run_chunks services lines (total - start) start r
          ≡ run_chunks services lines n (start + m) s =
        ap (λ k. run_chunks services lines k start r) left
        ∙ run_chunks-add m n start r
        ∙ ap (λ p. and_then p (run_chunks services lines n (start + m))) went in
      ap (λ p. and_then p (complete services)) (again ∙ sym through)

  -- What `begin` wrote still stands: the job runs, and counts the chunks of these lines.
  abbrev pub IsBegun : Option ℕ → BuildJob → Type 0
  IsBegun limit job =
      (job.status ≡ running)
      × (job.current_chunk ≡ job.processed_chunks)
      × (job.total_chunks_of ≡ total_chunks job.chunk_size lines)
      × (job.limit_count ≡ limit)

  run_chunk-IsBegun :
      (limit : Option ℕ) (i : ℕ) (r s : Run W)
      → run_chunk services lines i r ≡ ongoing s
      → IsBegun limit r.job
      → IsBegun limit s.job
  unfolding run_chunk checkpoint
  run_chunk-IsBegun limit i r s h begun = ground (arith, h, begun)

  run_chunks-IsBegun :
      (limit : Option ℕ) (m i : ℕ) (r s : Run W)
      → run_chunks services lines m i r ≡ ongoing s
      → IsBegun limit r.job
      → IsBegun limit s.job
  unfolding run_chunks
  run_chunks-IsBegun limit zero i r s h begun =
      let same : r ≡ s = cc in subst (λ x. IsBegun limit x.job) same begun
  run_chunks-IsBegun limit (suc m) i r s h begun =
      from (run_chunk services lines i r) refl (λ t e rest.
        run_chunks-IsBegun limit m (i + 1) t s rest (run_chunk-IsBegun limit i r t e begun))
    where
      from :
          (p : Progress W)
          → run_chunk services lines i r ≡ p
          → ((t : Run W)
              → run_chunk services lines i r ≡ ongoing t
              → run_chunks services lines m (i + 1) t ≡ ongoing s
              → IsBegun limit s.job)
          → IsBegun limit s.job
      from (finished t) e later = let bad : finished t ≡ ongoing s = rw e at h in cc
      from (unreadable t) e later = let bad : unreadable t ≡ ongoing s = rw e at h in cc
      from panicked e later = let bad : panicked ≡ ongoing s = rw e at h in cc
      from (ongoing t) e later = later t e (rw e at h)

  -- The job can begin again and nothing of it changes.
  begin-IsBegun :
      (limit : Option ℕ) (job : BuildJob) → IsBegun limit job → begin services lines job ≡ job
  unfolding begin
  begin-IsBegun limit job (status, chunk, total, _) = λ i. record job {
    status = sym status i;
    current_chunk = sym chunk i;
    total_chunks_of = sym total i;
  }

  run_chunk-in_range :
      (i : ℕ) (r : Run W) (part : List Text)
      → chunk r.job.chunk_size lines i ≡ some part
      → run_chunk services lines i r ≢ panicked
  unfolding run_chunk
  run_chunk-in_range i r part e h = ground (arith, e, h)

  run_chunks-in_range :
      (n i : ℕ) (r : Run W)
      → 1 ≤ r.job.chunk_size
      → i + n ≤ total_chunks r.job.chunk_size lines
      → run_chunks services lines n i r ≢ panicked
  unfolding run_chunks
  run_chunks-in_range zero i r pos fits h = cc
  run_chunks-in_range (suc n) i r pos fits h =
      from (run_chunk services lines i r) refl
        (λ t same. run_chunks-in_range n (i + 1) t (rw same pos) (rw same (omega (arith, fits))))
    where
      from :
          (p : Progress W)
          → run_chunk services lines i r ≡ p
          → ((t : Run W)
              → t.job.chunk_size ≡ r.job.chunk_size
              → run_chunks services lines n (i + 1) t ≢ panicked)
          → ⊥
      from (finished t) e later = let bad : finished t ≡ panicked = rw e at h in cc
      from (unreadable t) e later = let bad : unreadable t ≡ panicked = rw e at h in cc
      from panicked e later =
          run_chunk-in_range i r _ (chunk-eq r.job.chunk_size i lines pos (omega (arith, fits))) e
      from (ongoing t) e later = later t (run_chunk-next i r t e).1 (rw e at h)

  -- With a chunk size of at least one, the run of a job from a checkpoint within its chunks never
  -- slices out of range, whatever the operations that it calls return.
  pub run_lines-in_range :
      (r : Run W)
      → 1 ≤ r.job.chunk_size
      → r.job.processed_chunks ≤ total_chunks r.job.chunk_size lines
      → run_lines services lines r ≢ panicked
  unfolding run_lines complete
  run_lines-in_range r pos within h =
      let n = total_chunks r.job.chunk_size lines - r.job.processed_chunks in
      let fine = run_chunks-in_range n r.job.processed_chunks r pos (omega (arith, within)) in
      from (run_chunks services lines n r.job.processed_chunks r) refl fine
    where
      from :
          (p : Progress W)
          → run_chunks services lines
              (total_chunks r.job.chunk_size lines - r.job.processed_chunks)
              r.job.processed_chunks
              r
            ≡ p
          → run_chunks services lines
              (total_chunks r.job.chunk_size lines - r.job.processed_chunks)
              r.job.processed_chunks
              r
            ≢ panicked
          → ⊥
      from (ongoing t) e fine = let bad : complete services t ≡ panicked = rw e at h in cc
      from (finished t) e fine = let bad : finished t ≡ panicked = rw e at h in cc
      from (unreadable t) e fine = let bad : unreadable t ≡ panicked = rw e at h in cc
      from panicked e fine = fine e

-- A job that stopped after some chunks, and whose row still says that it runs, ends when it is run
-- again as it would have ended without the stop, in the same database with the same counters: where
-- the rounds so far went on, and did not go past the last chunk, the new run goes on at the
-- checkpoint, neither repeating nor leaving out a chunk. The file must be the same.
pub run_trust_build_job-resumed :
    {W : Type 0} (services : Services W) (content : Text) (m : ℕ) (r s : Run W)
    → let lines = limited r.job.limit_count (read_domain_file content) in
      run_chunks services lines m r.job.processed_chunks
          (record r { job = begin services lines r.job })
        ≡ ongoing s
      → r.job.processed_chunks + m ≤ total_chunks r.job.chunk_size lines
      → run_trust_build_job services (inr content) s ≡ run_trust_build_job services (inr content) r
unfolding run_trust_build_job begin
run_trust_build_job-resumed services content m r s went within =
    let file = read_domain_file content in
    let lines = limited r.job.limit_count file in
    let again = record r { job = begin services lines r.job } in
    let (a, b, c, limit) =
      run_chunks-IsBegun services lines r.job.limit_count m r.job.processed_chunks again s went
        (refl, refl, refl, refl) in
    ap
      (λ n.
        run_lines services (limited n file)
          (record s { job = begin services (limited n file) s.job }))
      limit
    ∙ ap (λ j. run_lines services lines (record s { job = j }))
        (begin-IsBegun services lines r.job.limit_count s.job (a, b, c, limit))
    ∙ run_lines-resumed services lines m again s went within
