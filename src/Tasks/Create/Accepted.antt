-- ===== src/Tasks/Create/Accepted.antt =====
-- internal/service/tasks.go: which tasks `CreateTask` accepts, and when it panics.
use dnsgolang.Base.{
  ℕ, ◌≡◌, refl, inl, inr, Bool, true, false, not, ◌&&◌, ◌||◌, Option, none, some, List, [], ◌∷◌,
  ◌++◌, length, nat_beq, if◌then◌else◌, is_empty, ◌==◌, text_eq, arith, ◌≢◌, ◌⊎◌, ◌↔◌, map, subst,
  text_beq,
}
use dnsgolang.Base.Text.{Text, txt, trim_space, trim, has_prefix, is_dot}
use dnsgolang.Base.Sets.{has}
use dnsgolang.Scheduling.Types.{Region, Result, ok, err}
use dnsgolang.Tasks.Detail.{Detail}
use dnsgolang.Tasks.Create.{
  CreateTaskInput, CreateEnv, CreateError, NewTask, invalid_regions, Outcome, refused, panics, done,
  fields, is_some, validate_cron, check_schedule, schedule_of, is_domain, host_of, check_target,
  then_check, choose_regions, unknown_codes, modes, protocols, refused_where, not_refused, read,
  new_task, create_task, set_unreached,
}

-- A target that the protocol can probe.
abbrev pub fits : CreateEnv → Text → Text → Bool
fits env protocol target =
    if protocol == txt "http"
    then has_prefix (txt "http://") target || has_prefix (txt "https://") target
    else if has protocol (txt "ping" ∷ txt "mtr" ∷ txt "traceroute" ∷ [])
    then env.is_ipv4 target || is_domain env (trim is_dot target)
    else not (protocol == txt "dns") || is_domain env (trim is_dot target)

-- A scheduled task is that of a user and has an expression of five parts that can be read; any other
-- has none.
abbrev pub is_timed : CreateEnv → CreateTaskInput → Bool → Text → Bool
is_timed env input authenticated cron =
    if input.mode == txt "schedule"
    then authenticated && (nat_beq (length (fields cron)) 5 && is_some (env.next_run cron env.now))
    else is_empty cron

-- A single trace whose options do not say whether an unreached target is complete.
abbrev pub is_silent : CreateTaskInput → Bool
is_silent input =
    input.mode == txt "once"
    && (has input.protocol (txt "mtr" ∷ txt "traceroute" ∷ [])
        && not (has (txt "complete_on_unreached") (map (λ e. e.0) input.options)))

-- The target is the host that was read off the input, for HTTP with a scheme; the options are those
-- of the input, which the check of DNS options passed, with one more where they are silent.
abbrev pub IsCopied : CreateEnv → CreateTaskInput → Bool → ℕ → NewTask → Type 0
IsCopied env input authenticated user task =
    (task.mode ≡ input.mode)
    × (task.protocol ≡ input.protocol)
    × (host : Text) × (host_of env input.protocol (trim_space input.target) ≡ done host)
    × ((task.target ≡ host)
        ⊎ ((input.protocol ≡ txt "http") × (task.target ≡ txt "https://" ++ host)))
    × (input.protocol ≡ txt "dns" → env.clean_dns_options task.target input.options ≡ none)
    × (task.options ≡ (
        if is_silent input
        then (txt "complete_on_unreached", txt "true") ∷ input.options
        else input.options))
    × (task.target_display
        ≡ (if is_empty input.target_display then trim_space input.target else input.target_display))
    × (task.source ≡ (if authenticated then txt "user" else txt "public"))
    × (task.created_by ≡ (if authenticated then some user else none))

abbrev pub IsAccepted : CreateEnv → CreateTaskInput → Bool → ℕ → NewTask → Type 0
IsAccepted env input authenticated user task =
    (has task.mode modes ≡ true)
    × (has task.protocol protocols ≡ true)
    × (fits env task.protocol task.target ≡ true)
    × (is_timed env input authenticated task.schedule_cron ≡ true)
    × (is_empty task.regions ≡ false)
    × (task.regions ≡ (if is_empty input.regions then task.regions else input.regions))
    × (active : List Region) × (env.active_regions ≡ ok active)
    × (unknown_codes active input.regions ≡ [])
    × IsCopied env input authenticated user task

past {ℓ} :
    {A : Type ℓ} (bad : Bool) (e : CreateError) (rest : Outcome A) (a : A)
    → refused_where bad e rest ≡ done a
    → (bad ≡ false) × (rest ≡ done a)
past true e rest a h = cc
past false e rest a h = (refl, h)

past_check {ℓ} :
    {A : Type ℓ} (e : Option CreateError) (rest : Outcome A) (a : A)
    → not_refused e rest ≡ done a
    → (e ≡ none) × (rest ≡ done a)
past_check none rest a h = (refl, h)
past_check (some e) rest a h = cc

past_read {ℓ κ} :
    {A : Type ℓ} {B : Type κ} (r : Result A) (f : A → Outcome B) (b : B)
    → read r f ≡ done b
    → (a : A) × (r ≡ ok a) × (f a ≡ done b)
past_read (ok a) f b h = (a, refl, h)
past_read (err e) f b h = cc

past_then {ℓ κ} :
    {A : Type ℓ} {B : Type κ} (o : Outcome A) (f : A → Outcome B) (b : B)
    → then_check o f ≡ done b
    → (a : A) × (o ≡ done a) × (f a ≡ done b)
unfolding then_check
past_then (refused e) f b h = cc
past_then panics f b h = cc
past_then (done a) f b h = (a, refl, h)

has_prefix-https : (s : Text) → has_prefix (txt "https://") (txt "https://" ++ s) ≡ true
unfolding has_prefix
has_prefix-https s = refl

check_target-fits :
    (env : CreateEnv) (protocol : Text) (options : Detail) (target out : Text)
    → check_target env protocol options target ≡ done out
    → fits env protocol out ≡ true
unfolding check_target
check_target-fits env protocol options target out h = ground (arith, h, has_prefix-https target)

check_target-from :
    (env : CreateEnv) (protocol : Text) (options : Detail) (target out : Text)
    → check_target env protocol options target ≡ done out
    → (out ≡ target) ⊎ ((protocol ≡ txt "http") × (out ≡ txt "https://" ++ target))
unfolding check_target
check_target-from env protocol options target out h =
    ground (arith, h, text_eq.beq_iff protocol (txt "http"))

check_target-dns :
    (env : CreateEnv) (protocol : Text) (options : Detail) (target out : Text)
    → check_target env protocol options target ≡ done out
    → protocol ≡ txt "dns"
    → env.clean_dns_options out options ≡ none
unfolding check_target text_beq
check_target-dns env protocol options target out h dns =
    let h' : check_target env (txt "dns") options target ≡ done out = rw dns at h in
    ground (arith, h')

check_schedule-timed :
    (env : CreateEnv) (input : CreateTaskInput) (authenticated : Bool)
    → check_schedule env input authenticated ≡ none
    → is_timed env input authenticated (schedule_of input) ≡ true
unfolding check_schedule validate_cron schedule_of
check_schedule-timed env input authenticated h = ground (arith, h)

choose_regions-some :
    (env : CreateEnv) (active : List Region) (codes out : List Text)
    → choose_regions env active codes ≡ done out
    → (is_empty out ≡ false) × (out ≡ (if is_empty codes then out else codes))
unfolding choose_regions
choose_regions-some env active codes out h = ground (arith, h)

is_empty-eq {ℓ} : {A : Type ℓ} (xs : List A) → not (is_empty xs) ≡ false → xs ≡ []
is_empty-eq [] h = refl
is_empty-eq (x ∷ xs) h = cc

new_task-IsAccepted :
    (env : CreateEnv) (input : CreateTaskInput) (authenticated : Bool) (user : ℕ) (host out : Text)
    (active : List Region) (regions : List Text)
    → host_of env input.protocol (trim_space input.target) ≡ done host
    → not (has input.mode modes) ≡ false
    → not (has input.protocol protocols) ≡ false
    → check_schedule env input authenticated ≡ none
    → env.active_regions ≡ ok active
    → not (is_empty (unknown_codes active input.regions)) ≡ false
    → check_target env input.protocol input.options host ≡ done out
    → choose_regions env active input.regions ≡ done regions
    → IsAccepted env input authenticated user (new_task input authenticated user out regions)
unfolding new_task set_unreached
new_task-IsAccepted env input authenticated user host out active regions host_e mode protocol
      schedule found known target chosen =
    let (some_region, given) = choose_regions-some env active input.regions regions chosen in
    (
      ground (arith, mode),
      ground (arith, protocol),
      check_target-fits env input.protocol input.options host out target,
      check_schedule-timed env input authenticated schedule,
      some_region,
      given,
      active,
      found,
      is_empty-eq (unknown_codes active input.regions) known,
      (
        refl,
        refl,
        host,
        host_e,
        check_target-from env input.protocol input.options host out target,
        check_target-dns env input.protocol input.options host out target,
        refl,
        refl,
        refl,
        refl,
      ),
    )

-- A task that is accepted has a known mode and protocol, a target that the protocol can probe, which
-- is the host of the input, for HTTP with a scheme, a region at least, those that were asked for
-- where any were, each of them active, and, where the task is scheduled, a user and a good
-- expression of five parts. Options of DNS have passed their check, and the options are those of the
-- input, with one more for a single trace that is silent on unreached targets. The name to display
-- is that of the input or else its target, and source and creator tell who is logged in.
pub create_task-IsAccepted :
    (env : CreateEnv) (input : CreateTaskInput) (authenticated : Bool) (user : ℕ) (task : NewTask)
    → create_task env input authenticated user ≡ done task
    → IsAccepted env input authenticated user task
unfolding create_task
create_task-IsAccepted env input authenticated user task h =
    let (mode, h1) = past (not (has input.mode modes)) _ _ task h in
    let (protocol, h2) = past (not (has input.protocol protocols)) _ _ task h1 in
    let (target, h3) = past (is_empty (trim_space input.target)) _ _ task h2 in
    let (schedule, h4) = past_check (check_schedule env input authenticated) _ task h3 in
    let (active, active_e, h5) = past_read env.active_regions _ task h4 in
    from mode protocol schedule active active_e h5
  where
    same_task : (x : NewTask) → Outcome.done x ≡ done task → x ≡ task
    same_task x e = cc

    from :
        not (has input.mode modes) ≡ false
        → not (has input.protocol protocols) ≡ false
        → check_schedule env input authenticated ≡ none
        → (active : List Region) → env.active_regions ≡ ok active
        → refused_where
            (not (is_empty (unknown_codes active input.regions)))
            (invalid_regions (unknown_codes active input.regions))
            (then_check (host_of env input.protocol (trim_space input.target)) λ host.
              then_check (check_target env input.protocol input.options host) λ target.
                then_check
                  (choose_regions env active input.regions)
                  λ regions. done (new_task input authenticated user target regions))
          ≡ done task
        → IsAccepted env input authenticated user task
    from mode protocol schedule active active_e h5 =
        let (known, h6) = past (not (is_empty (unknown_codes active input.regions))) _ _ task h5 in
        let (host, host_e, h7) =
          past_then (host_of env input.protocol (trim_space input.target)) _ task h6 in
        let (out, out_e, h8) =
          past_then (check_target env input.protocol input.options host) _ task h7 in
        let (regions, regions_e, h9) =
          past_then (choose_regions env active input.regions) _ task h8 in
        subst (IsAccepted env input authenticated user)
          (same_task (new_task input authenticated user out regions) h9)
          (new_task-IsAccepted env input authenticated user host out active regions host_e mode
            protocol schedule active_e known out_e regions_e)

panics_where {ℓ} :
    {A : Type ℓ} (bad : Bool) (e : CreateError) (rest : Outcome A)
    → refused_where bad e rest ≡ panics
    → (bad ≡ false) × (rest ≡ panics)
panics_where true e rest h = cc
panics_where false e rest h = (refl, h)

panics_check {ℓ} :
    {A : Type ℓ} (e : Option CreateError) (rest : Outcome A)
    → not_refused e rest ≡ panics
    → (e ≡ none) × (rest ≡ panics)
panics_check none rest h = (refl, h)
panics_check (some e) rest h = cc

panics_read {ℓ κ} :
    {A : Type ℓ} {B : Type κ} (r : Result A) (f : A → Outcome B)
    → read r f ≡ panics
    → (a : A) × (r ≡ ok a) × (f a ≡ panics)
panics_read (ok a) f h = (a, refl, h)
panics_read (err e) f h = cc

panics_then {ℓ κ} :
    {A : Type ℓ} {B : Type κ} (o : Outcome A) (f : A → Outcome B)
    → then_check o f ≡ panics
    → (o ≡ panics) ⊎ ((a : A) × (f a ≡ panics))
unfolding then_check
panics_then (refused e) f h = cc
panics_then panics f h = inl refl
panics_then (done a) f h = inr (a, h)

target_safe :
    (env : CreateEnv) (protocol : Text) (options : Detail) (target : Text)
    → check_target env protocol options target ≢ panics
unfolding check_target
target_safe env protocol options target h = ground (arith, h)

regions_safe :
    (env : CreateEnv) (active : List Region) (codes : List Text)
    → choose_regions env active codes ≢ panics
unfolding choose_regions
regions_safe env active codes h = ground (arith, h)

host_panics :
    (env : CreateEnv) (protocol target : Text)
    → host_of env protocol target ≡ panics
    → ((protocol == txt "http") ≡ false) × (env.parse_url target ≡ none)
unfolding host_of
host_panics env protocol target h = ground (arith, h)

-- The checks before the target is read.
abbrev pub IsKnown : CreateEnv → CreateTaskInput → Bool → Type 0
IsKnown env input authenticated =
    (has input.mode modes ≡ true)
    × (has input.protocol protocols ≡ true)
    × (is_empty (trim_space input.target) ≡ false)
    × (check_schedule env input authenticated ≡ none)
    × (active : List Region) × (env.active_regions ≡ ok active)
    × (unknown_codes active input.regions ≡ [])

abbrev pub IsUnread : CreateEnv → CreateTaskInput → Bool → Type 0
IsUnread env input authenticated =
    ((input.protocol == txt "http") ≡ false)
    × (env.parse_url (trim_space input.target) ≡ none)
    × IsKnown env input authenticated

panics-IsUnread :
    (env : CreateEnv) (input : CreateTaskInput) (authenticated : Bool) (user : ℕ)
    → create_task env input authenticated user ≡ panics
    → IsUnread env input authenticated
unfolding create_task
panics-IsUnread env input authenticated user h =
    let (mode, h1) = panics_where (not (has input.mode modes)) _ _ h in
    let (protocol, h2) = panics_where (not (has input.protocol protocols)) _ _ h1 in
    let (target, h3) = panics_where (is_empty (trim_space input.target)) _ _ h2 in
    let (schedule, h4) = panics_check (check_schedule env input authenticated) _ h3 in
    let (active, found, h5) = panics_read env.active_regions _ h4 in
    let (known, h6) = panics_where (not (is_empty (unknown_codes active input.regions))) _ _ h5 in
    let (other, unread) : ((input.protocol == txt "http") ≡ false)
        × (env.parse_url (trim_space input.target) ≡ none) =
      elim (panics_then (host_of env input.protocol (trim_space input.target)) _ h6) [
        | inl e ↦ host_panics env input.protocol (trim_space input.target) e
        | inr (host, h7) ↦
            elim (panics_then (check_target env input.protocol input.options host) _ h7) [
              | inl e ↦ absurd (target_safe env input.protocol input.options host e)
              | inr (out, h8) ↦ elim (panics_then (choose_regions env active input.regions) _ h8) [
                | inl e ↦ absurd (regions_safe env active input.regions e)
                | inr (regions, h9) ↦ cc
              ]
            ]
      ] in
    (
      other,
      unread,
      (
        ground (arith, mode),
        ground (arith, protocol),
        target,
        schedule,
        active,
        found,
        is_empty-eq (unknown_codes active input.regions) known,
      ),
    )

IsUnread-panics :
    (env : CreateEnv) (input : CreateTaskInput) (authenticated : Bool) (user : ℕ)
    → IsUnread env input authenticated
    → create_task env input authenticated user ≡ panics
unfolding create_task host_of then_check
IsUnread-panics env input authenticated user
      (other, unread, (mode, protocol, target, schedule, active, found, known)) =
    rw (mode, protocol, target, schedule, found) (rw known (rw (other, unread) refl))

-- The call panics exactly where the protocol is not HTTP and the target cannot be read as a URL,
-- with a known mode and protocol, some target, a good schedule, and regions that are active.
pub create_task-panics :
    (env : CreateEnv) (input : CreateTaskInput) (authenticated : Bool) (user : ℕ)
    → (create_task env input authenticated user ≡ panics) ↔ IsUnread env input authenticated
create_task-panics env input authenticated user =
    (panics-IsUnread env input authenticated user, IsUnread-panics env input authenticated user)
