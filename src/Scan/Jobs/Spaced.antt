-- ===== src/Scan/Jobs/Spaced.antt =====
-- internal/service/scanner.go: how often a profile starts a scan (`RunDueMonitorProfiles`).
use dnsgolang.Base.{
  ℕ, ◌+◌, ◌*◌, ◌≤◌, ◌≡◌, inl, inr, Bool, true, false, Option, none, some, List, [], ◌∷◌, arith,
  if◌then◌else◌, Bool-cases, Option-cases, subst, ap, refl, ◌∙◌, not, ◌&&◌, leb, ltb,
}
use dnsgolang.Scan.Jobs.{
  ScanBody, Profile, one_second, is_due, body_of, run_profile, running, failed,
}

-- The clocks at which a scan of the profile starts when the profiles are looked at by these clocks:
-- it is due then, and `starts` says that the scan could be created.
unfoldable pub starts_of : (ℕ → ScanBody → Bool) → List ℕ → Profile → List ℕ
starts_of starts [] p = []
starts_of starts (now ∷ clocks) p =
    let rest = starts_of starts clocks (run_profile (starts now) now p) in
    if is_due now p && starts now (body_of p) then now ∷ rest else rest

-- Each time is at least the interval, and a second, after the one before.
abbrev pub IsSpaced : ℕ → Option ℕ → List ℕ → Type 0
IsSpaced interval before [] = Unit
IsSpaced interval none (t ∷ ts) = IsSpaced interval (some t) ts
IsSpaced interval (some last) (t ∷ ts) =
    (last + interval * one_second ≤ t) × (last + one_second ≤ t) × IsSpaced interval (some t) ts

later-IsSpaced :
    (interval now : ℕ) (before : Option ℕ) (ts : List ℕ)
    → IsSpaced interval before (now ∷ [])
    → IsSpaced interval (some now) ts
    → IsSpaced interval before ts
later-IsSpaced interval now none [] w h = tt
later-IsSpaced interval now none (t ∷ ts) w (_, _, h) = h
later-IsSpaced interval now (some last) [] w h = tt
later-IsSpaced interval now (some last) (t ∷ ts) (a, b, _) (c, d, h) =
    (omega (arith, a, c), omega (arith, b, d), h)

and_then-IsSpaced :
    (interval now : ℕ) (before : Option ℕ) (ts : List ℕ)
    → IsSpaced interval before (now ∷ [])
    → IsSpaced interval (some now) ts
    → IsSpaced interval before (now ∷ ts)
and_then-IsSpaced interval now none ts w h = h
and_then-IsSpaced interval now (some last) ts (a, b, _) h = (a, b, h)

-- A profile that is due has waited.
is_due-waited :
    (now : ℕ) (p : Profile)
    → is_due now p ≡ true
    → IsSpaced p.interval_seconds p.last_run_at (now ∷ [])
unfolding is_due
is_due-waited now p due = elim (Option-cases p.last_run_at) [
  | inl e ↦ rw e tt
  | inr (last, e) ↦
      let due' : (p.enabled
            && (leb (last + one_second) now
                && not (ltb now (last + p.interval_seconds * one_second))))
          ≡ true =
        rw e at due in
      rw e (ground arith, ground arith, tt)
]

-- What a profile that is due becomes: the time is kept, and whether the scan could be created.
run_profile-due :
    (starts : ScanBody → Bool) (now : ℕ) (p : Profile)
    → is_due now p ≡ true
    → run_profile starts now p ≡ record p {
      last_status = if starts (body_of p) then running else failed;
      last_run_at = some now;
    }
unfolding run_profile
run_profile-due starts now p due = rw due refl

run_profile-early :
    (starts : ScanBody → Bool) (now : ℕ) (p : Profile)
    → is_due now p ≡ false
    → run_profile starts now p ≡ p
unfolding run_profile
run_profile-early starts now p early = rw early

starts_of-IsSpaced :
    (starts : ℕ → ScanBody → Bool) (clocks : List ℕ) (p : Profile)
    → IsSpaced p.interval_seconds p.last_run_at (starts_of starts clocks p)
unfolding starts_of
starts_of-IsSpaced starts [] p = tt
starts_of-IsSpaced starts (now ∷ clocks) p = elim (Bool-cases (is_due now p)) [
  | inl due ↦
      let q = run_profile (starts now) now p in
      let e = run_profile-due (starts now) now p due in
      let rest : IsSpaced p.interval_seconds (some now) (starts_of starts clocks q) =
        subst (λ n. IsSpaced n (some now) (starts_of starts clocks q))
          (ap (λ x. x.interval_seconds) e)
          (subst (λ o. IsSpaced q.interval_seconds o (starts_of starts clocks q))
            (ap (λ x. x.last_run_at) e) (starts_of-IsSpaced starts clocks q)) in
      let waited = is_due-waited now p due in
      elim (Bool-cases (starts now (body_of p))) [
        | inl started ↦
            rw (due, started)
              (and_then-IsSpaced p.interval_seconds now p.last_run_at (starts_of starts clocks q)
                waited rest)
        | inr refused ↦
            rw (due, refused)
              (later-IsSpaced p.interval_seconds now p.last_run_at (starts_of starts clocks q)
                waited rest)
      ]
  | inr early ↦
      rw (early, run_profile-early (starts now) now p early) (starts_of-IsSpaced starts clocks p)
]

waited-is_due :
    (now : ℕ) (p : Profile)
    → p.enabled ≡ true
    → IsSpaced p.interval_seconds p.last_run_at (now ∷ [])
    → is_due now p ≡ true
unfolding is_due
waited-is_due now p on h = elim (Option-cases p.last_run_at) [
  | inl e ↦ rw (e, on)
  | inr (last, e) ↦
      let (a, b, _) = subst (λ o. IsSpaced p.interval_seconds o (now ∷ [])) e h in
      rw (e, on) (ground arith)
]

-- However often and with whatever clocks the profiles are looked at, two scans of a profile start
-- with its interval and at least a second between them. An enabled profile whose last try was that
-- long ago, or that never ran, tries one: where the scan can be created, it starts and the profile
-- is running, and where not, none starts and the profile has failed; in both cases the time of the
-- next try counts from this one.
pub run_profile-IsSpaced :
    (starts : ℕ → ScanBody → Bool) (clocks : List ℕ) (p : Profile)
    → IsSpaced p.interval_seconds p.last_run_at (starts_of starts clocks p)
      × ((now : ℕ)
          → p.enabled ≡ true
          → IsSpaced p.interval_seconds p.last_run_at (now ∷ [])
          → let q = run_profile (starts now) now p in
            (q.last_run_at ≡ some now)
            × (starts now (body_of p) ≡ true
                → (q.last_status ≡ running)
                  × (starts_of starts (now ∷ clocks) p ≡ now ∷ starts_of starts clocks q))
            × (starts now (body_of p) ≡ false
                → (q.last_status ≡ failed)
                  × (starts_of starts (now ∷ clocks) p ≡ starts_of starts clocks q)))
unfolding starts_of
run_profile-IsSpaced starts clocks p = (
  starts_of-IsSpaced starts clocks p,
  (λ now on h.
      let due = waited-is_due now p on h in
      let e = run_profile-due (starts now) now p due in
      (
        ap (λ x. x.last_run_at) e,
        (λ can. (ap (λ x. x.last_status) e ∙ rw can refl, rw (due, can) refl)),
        (λ cannot. (ap (λ x. x.last_status) e ∙ rw cannot refl, rw (due, cannot) refl)),
      )),
)
