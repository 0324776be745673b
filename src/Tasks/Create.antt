-- ===== src/Tasks/Create.antt =====
-- internal/service/tasks.go: `CreateTask` and `validateCron`, up to the row of the task. `url.Parse`, the
-- regular expressions and the reader of cron expressions are parameters; `clean_dns_options` says
-- what the cleaning of options in internal/engine/prober answers. The queries are arguments.
pub mod Accepted
pub mod Tests
use dnsgolang.Base.{
  ℕ, Bool, true, false, not, ◌&&◌, ◌||◌, Option, none, some, List, [], ◌∷◌, ◌++◌, map, keep, find,
  length, nat_beq, if◌then◌else◌, is_empty, ◌==◌, text_eq,
}
use dnsgolang.Base.Text.{Text, txt, trim_space, trim, has_prefix, is_space, is_dot}
use dnsgolang.Base.Sets.{has}
use dnsgolang.Scheduling.Types.{Region, Result, ok, err}
use dnsgolang.Tasks.Detail.{Detail}

pub record CreateTaskInput : Type 0 where
  pub mode : Text
  pub protocol : Text
  pub target : Text
  pub target_display : Text
  pub regions : List Text
  pub options : Detail
  pub schedule : Text

-- What the call reads: the query of active regions, the codes that `normalizeRegionCodes` gives
-- where none are asked for, the clock, and the outside functions. `parse_url` gives the scheme and
-- the host name, or nothing where the pointer that comes back is nil.
pub record CreateEnv : Type 0 where
  pub active_regions : Result (List Region)
  pub default_codes : Result (List Text)
  pub now : ℕ
  pub next_run : Text → ℕ → Option ℕ
  pub parse_url : Text → Option (Text × Text)
  pub is_ipv4 : Text → Bool
  pub matches_domain : Text → Bool
  pub clean_dns_options : Text → Detail → Option Text

pub data CreateError : Type 0 where
  bad_mode bad_protocol no_target login_required no_schedule five_parts bad_cron : CreateError
  invalid_regions : List Text → CreateError
  bad_target bad_dns_target no_regions : CreateError
  bad_options db_error : Text → CreateError

-- The row of the task.
pub record NewTask : Type 0 where
  pub mode : Text
  pub protocol : Text
  pub target : Text
  pub target_display : Text
  pub regions : List Text
  pub options : Detail
  pub schedule_cron : Text
  pub source : Text
  pub created_by : Option ℕ

-- A call is refused, panics on a nil pointer, or goes on.
pub data Outcome {ℓ} (A : Type ℓ) : Type ℓ where
  refused : CreateError → Outcome A
  panics : Outcome A
  done : A → Outcome A

-- `strings.Fields`.
unfoldable pub fields : Text → List Text
fields [] = []
fields (c ∷ s) =
    let rest = fields s in
    if is_space c then rest else elim s [
      | [] ↦ (c ∷ []) ∷ []
      | d ∷ more ↦
          if is_space d
          then (c ∷ []) ∷ rest
          else elim rest [ [] ↦ (c ∷ []) ∷ [] | f ∷ fs ↦ (c ∷ f) ∷ fs ]
    ]

abbrev pub is_some : Option ℕ → Bool
is_some none = false
is_some (some v) = true

-- `none` is an expression that is good.
unfoldable pub validate_cron : CreateEnv → Text → Option CreateError
unfolding fields
validate_cron env expr =
    if not (nat_beq (length (fields expr)) 5)
    then some five_parts
    else if is_some (env.next_run expr env.now)
    then none
    else some bad_cron

unfoldable pub check_schedule : CreateEnv → CreateTaskInput → Bool → Option CreateError
unfolding validate_cron
check_schedule env input authenticated =
    if input.mode == txt "schedule"
    then (if not authenticated
        then some login_required
        else if is_empty (trim_space input.schedule)
        then some no_schedule
        else validate_cron env (trim_space input.schedule))
    else none

unfoldable pub schedule_of : CreateTaskInput → Text
schedule_of input = if input.mode == txt "schedule" then trim_space input.schedule else []

unfoldable pub is_domain : CreateEnv → Text → Bool
is_domain env s = not (has_prefix (txt "://") s) && env.matches_domain s

-- The host of a URL takes the target's place for all protocols but HTTP, for which the URL is not
-- looked at.
unfoldable pub host_of : CreateEnv → Text → Text → Outcome Text
host_of env protocol target =
    if protocol == txt "http" then done target else elim (env.parse_url target) [
      | none ↦ panics
      | some (scheme, host) ↦
          if not (is_empty scheme) && not (is_empty host) then done host else done target
    ]

abbrev pub or_done : Option Text → Text → Outcome Text
or_done none target = done target
or_done (some message) target = refused (bad_options message)

unfoldable pub check_target : CreateEnv → Text → Detail → Text → Outcome Text
unfolding is_domain
check_target env protocol options target =
    if protocol == txt "http"
    then (if has_prefix (txt "http://") target || has_prefix (txt "https://") target
        then done target
        else done (txt "https://" ++ target))
    else if has protocol (txt "ping" ∷ txt "mtr" ∷ txt "traceroute" ∷ [])
    then (if env.is_ipv4 target || is_domain env (trim is_dot target)
        then done target
        else refused bad_target)
    else if protocol == txt "dns"
    then (if not (is_domain env (trim is_dot target))
        then refused bad_dns_target
        else or_done (env.clean_dns_options target options) target)
    else done target

unfoldable pub then_check {ℓ κ} :
    {A : Type ℓ} {B : Type κ} → Outcome A → (A → Outcome B) → Outcome B
then_check (refused e) f = refused e
then_check panics f = panics
then_check (done a) f = f a

-- A single trace counts as complete even where the target was not reached, if nothing else was said.
unfoldable pub set_unreached : Text → Text → Detail → Detail
set_unreached mode protocol options =
    if mode == txt "once"
      && (has protocol (txt "mtr" ∷ txt "traceroute" ∷ [])
          && not (has (txt "complete_on_unreached") (map (λ e. e.0) options)))
    then (txt "complete_on_unreached", txt "true") ∷ options
    else options

abbrev pub first_active_region : List Region → List Text
first_active_region [] = []
first_active_region (r ∷ rs) = r.code ∷ []

abbrev pub or_first : List Text → List Region → List Text
or_first codes regions = if is_empty codes then first_active_region regions else codes

unfoldable pub choose_regions : CreateEnv → List Region → List Text → Outcome (List Text)
choose_regions env active codes =
    if not (is_empty codes) then done codes else elim env.default_codes [
      | err e ↦ refused (db_error e)
      | ok defaults ↦
          if is_empty (or_first defaults active)
          then refused no_regions
          else done (or_first defaults active)
    ]

unfoldable pub unknown_codes : List Region → List Text → List Text
unknown_codes active codes = keep (λ c. not (has c (map (λ (r : Region). r.code) active))) codes

abbrev pub modes : List Text
modes = txt "once" ∷ txt "schedule" ∷ []

abbrev pub protocols : List Text
protocols = txt "http" ∷ txt "ping" ∷ txt "dns" ∷ txt "mtr" ∷ txt "traceroute" ∷ []

abbrev pub refused_where {ℓ} : {A : Type ℓ} → Bool → CreateError → Outcome A → Outcome A
refused_where bad e rest = if bad then refused e else rest

abbrev pub not_refused {ℓ} : {A : Type ℓ} → Option CreateError → Outcome A → Outcome A
not_refused none rest = rest
not_refused (some e) rest = refused e

abbrev pub read {ℓ κ} : {A : Type ℓ} {B : Type κ} → Result A → (A → Outcome B) → Outcome B
read (ok a) f = f a
read (err e) f = refused (db_error e)

unfoldable pub new_task : CreateTaskInput → Bool → ℕ → Text → List Text → NewTask
unfolding set_unreached schedule_of
new_task input authenticated user target regions = record {
  mode = input.mode;
  protocol = input.protocol;
  target = target;
  target_display =
      if is_empty input.target_display then trim_space input.target else input.target_display;
  regions = regions;
  options = set_unreached input.mode input.protocol input.options;
  schedule_cron = schedule_of input;
  source = if authenticated then txt "user" else txt "public";
  created_by = if authenticated then some user else none;
}

unfoldable pub create_task : CreateEnv → CreateTaskInput → Bool → ℕ → Outcome NewTask
unfolding check_schedule host_of check_target then_check choose_regions unknown_codes new_task
create_task env input authenticated user = refused_where (not (has input.mode modes)) bad_mode (
    refused_where (not (has input.protocol protocols)) bad_protocol (
      refused_where (is_empty (trim_space input.target)) no_target (
        not_refused (check_schedule env input authenticated) (
          read env.active_regions λ active.
            refused_where (not (is_empty (unknown_codes active input.regions)))
              (invalid_regions (unknown_codes active input.regions))
              (then_check (host_of env input.protocol (trim_space input.target)) λ host.
                then_check (check_target env input.protocol input.options host) λ target.
                  then_check (choose_regions env active input.regions)
                    λ regions. done (new_task input authenticated user target regions))))))
