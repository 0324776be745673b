-- ===== src/Batch/Run/Totals.antt =====
-- internal/service/batch.go: sums over the rows that are under way in a run, and how the steps move them.
use dnsgolang.Base.{ℕ, ◌+◌, ◌≡◌, refl, ap, Bool, true, false, List, [], ◌∷◌, ◌++◌, arith}
use dnsgolang.Batch.Rows.{WorkItem, BatchResult}
use dnsgolang.Batch.Run.{Setup, row_of, Phase, probing, counted, sending, Flight, flush, receive}

abbrev pub total {ℓ} : {A : Type ℓ} → (A → ℕ) → List A → ℕ
total w [] = 0
total w (x ∷ xs) = w x + total w xs

pub total-append {ℓ} :
    {A : Type ℓ} (w : A → ℕ) (xs ys : List A) → total w (xs ++ ys) ≡ total w xs + total w ys
total-append w [] ys = omega arith
total-append w (x ∷ xs) ys = omega (arith, total-append w xs ys)

-- Where an element takes the place of another, the sum changes by the two.
pub total-changed {ℓ} :
    {A : Type ℓ} (w : A → ℕ) (all' before after : List A) (x y : A)
    → all' ≡ before ++ (x ∷ after)
    → total w (before ++ (y ∷ after)) + w x ≡ total w all' + w y
total-changed w all' before after x y e =
    omega
      (arith, ap (total w) e, total-append w before (x ∷ after), total-append w before (y ∷ after))

pub total-removed {ℓ} :
    {A : Type ℓ} (w : A → ℕ) (all' before after : List A) (x : A)
    → all' ≡ before ++ (x ∷ after)
    → total w (before ++ after) + w x ≡ total w all'
total-removed w all' before after x e =
    omega (arith, ap (total w) e, total-append w before (x ∷ after), total-append w before after)

pub total-added {ℓ} :
    {A : Type ℓ} (w : A → ℕ) (xs : List A) (x : A) → total w (xs ++ (x ∷ [])) ≡ total w xs + w x
total-added w xs x = omega (arith, total-append w xs (x ∷ []))

-- The sum over the rows that have left their workers.
abbrev pub flown : (BatchResult → ℕ) → Flight → ℕ
flown w s = total w s.channel + total w s.buffer + total w s.stored + total w s.lost

pub flown-flush :
    (w : BatchResult → ℕ) (accepted : Bool) (s : Flight) → flown w (flush accepted s) ≡ flown w s
unfolding flush
flown-flush w true s = omega (arith, total-append w s.stored s.buffer)
flown-flush w false s = omega (arith, total-append w s.lost s.buffer)

pub flown-receive :
    (w : BatchResult → ℕ) (env : Setup) (accepted : Bool) (r : BatchResult)
    (rest : List BatchResult) (s : Flight)
    → s.channel ≡ r ∷ rest
    → flown w (receive env accepted r rest s) ≡ flown w s
unfolding receive flush
flown-receive w env true r rest s e = ground (
  arith,
  ap (total w) e,
  total-added w s.buffer r,
  total-append w s.stored (s.buffer ++ (r ∷ [])),
)
flown-receive w env false r rest s e =
    ground (
      arith,
      ap (total w) e,
      total-added w s.buffer r,
      total-append w s.lost (s.buffer ++ (r ∷ [])),
    )

-- What a worker has added to a counter: nothing before it is there.
abbrev pub after_done : Phase × WorkItem → ℕ
after_done (probing, item) = 0
after_done (counted, item) = 1
after_done (sending, item) = 1

abbrev pub after_result : Setup → (BatchResult → ℕ) → Phase × WorkItem → ℕ
after_result env w (probing, item) = 0
after_result env w (counted, item) = 0
after_result env w (sending, item) = w (row_of env item)

-- The workers, the items to come and the counters of two states are the same, and so is the sum
-- over the rows on their way.
abbrev pub IsSame : Flight → Flight → Type 0
IsSame s s' =
    (s'.workers ≡ s.workers)
    × (s'.todo ≡ s.todo)
    × (s'.stopped ≡ s.stopped)
    × (s'.done_count ≡ s.done_count)
    × (s'.success_count ≡ s.success_count)
    × (s'.latency_sum ≡ s.latency_sum)
    × (s'.latency_count ≡ s.latency_count)
    × ((w : BatchResult → ℕ) → flown w s' ≡ flown w s)

pub flush-IsSame : (accepted : Bool) (s : Flight) → IsSame s (flush accepted s)
unfolding flush
flush-IsSame true s = (refl, refl, refl, refl, refl, refl, refl, λ w. flown-flush w true s)
flush-IsSame false s = (refl, refl, refl, refl, refl, refl, refl, λ w. flown-flush w false s)

receive_keeps :
    (env : Setup) (accepted : Bool) (r : BatchResult) (rest : List BatchResult) (s : Flight)
    → let s' = receive env accepted r rest s in
      (s'.workers ≡ s.workers)
      × (s'.todo ≡ s.todo)
      × (s'.stopped ≡ s.stopped)
      × (s'.done_count ≡ s.done_count)
      × (s'.success_count ≡ s.success_count)
      × (s'.latency_sum ≡ s.latency_sum)
      × (s'.latency_count ≡ s.latency_count)
unfolding receive flush
receive_keeps env true r rest s = ground arith
receive_keeps env false r rest s = ground arith

pub receive-IsSame :
    (env : Setup) (accepted : Bool) (r : BatchResult) (rest : List BatchResult) (s : Flight)
    → s.channel ≡ r ∷ rest
    → IsSame s (receive env accepted r rest s)
receive-IsSame env accepted r rest s e =
    let (a, b, c, d, f, g, h) = receive_keeps env accepted r rest s in
    (a, b, c, d, f, g, h, λ w. flown-receive w env accepted r rest s e)
