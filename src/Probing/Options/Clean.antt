-- ===== src/Probing/Options/Clean.antt =====
-- internal/engine/prober/dns.go: what holds of options that are accepted.
use dnsgolang.Base.{
  ℕ, ◌-◌, ◌≤◌, ◌≡◌, ◌↔◌, refl, sym, ap, Option, none, some, ◌∙◌, Bool, true, false, not, ◌||◌, List,
  [], ◌∷◌, if◌then◌else◌, is_empty, ◌==◌, text_eq, ℤ, pos, negsuc, length, All, arith, subst,
  text_beq,
}
use dnsgolang.Base.Text.{Text, txt, trim_space}
use dnsgolang.Base.Sets.{has, Distinct}
use dnsgolang.Trust.Discovery.{QueryStep}
use dnsgolang.Probing.Options.{
  Value, RawOptions, Scanners, DnsOptions, Cleaned, good, bad, clamp, clamp_float, Float, finite,
  infinite, nan, or_float, nothing, flag, number, text, other, to_int, to_float, str,
  valid_record_types, transports, server_modes, first_non_empty, candidates, new_servers,
  normalize_root_servers, checked, transport_for, normalize_query_step, and_step, normalize_plan,
  build_query_plan, with_plan, read_options, clean_dns_options,
}

-- The number is within the bounds.
abbrev pub Within : ℕ → ℕ → ℕ → Type 0
Within min max n = (min ≤ n) × (n ≤ max)

abbrev pub WithinOrNan : ℕ → ℕ → Option ℕ → Type 0
WithinOrNan min max none = Unit
WithinOrNan min max (some n) = Within min max n

-- The value is a text that reads as NaN.
abbrev pub IsNan : Scanners → Value → Type 0
IsNan scan v = (s : Text) × (v ≡ Value.text s) × (scan.scan_float s ≡ some nan)

-- A step that a probe can run: a transfer of a zone goes over TCP.
abbrev pub IsStep : QueryStep → Type 0
IsStep s =
    (has s.record_type valid_record_types ≡ true)
    × (has s.transport transports ≡ true)
    × (has s.server_mode server_modes ≡ true)
    × ((not (s.record_type == txt "AXFR") || s.transport == txt "tcp") ≡ true)
    × Within 1 5 s.repeat_count

abbrev pub IsClean : DnsOptions → Type 0
IsClean c =
    (has c.record_type valid_record_types ≡ true)
    × (has c.transport transports ≡ true)
    × (has c.server_mode server_modes ≡ true)
    × (is_empty c.resolver ≡ false)
    × WithinOrNan 1000 20000 c.timeout
    × Within 1 5 c.repeat_count
    × Within 1 8 c.trace_max_hops
    × Within 1 3 c.trace_max_ns_per_hop
    × Within 1 5 c.latency_sample_count
    × Within 3 30 c.route_max_hops
    × (length c.trace_root_servers ≤ 8)
    × Distinct c.trace_root_servers
    × (is_empty c.query_plan ≡ false)
    × All IsStep c.query_plan

pub clamp_bounds :
    (v : ℤ) (min max fallback : ℕ) → min ≤ max → Within min max (clamp v min max fallback)
unfolding clamp
clamp_bounds (negsuc n) min max fallback h = (omega arith, h)
clamp_bounds (pos n) min max fallback h = ground (arith, h)

clamp_float_bounds :
    (v : Float) (min max fallback : ℕ)
    → min ≤ max
    → WithinOrNan min max (clamp_float v min max fallback)
unfolding clamp_float
clamp_float_bounds (finite v) min max fallback h = clamp_bounds v min max fallback h
clamp_float_bounds (infinite true) min max fallback h = (omega arith, h)
clamp_float_bounds (infinite false) min max fallback h = (h, omega arith)
clamp_float_bounds nan min max fallback h = tt

-- NaN is all that gives no number.
clamp_float-nan :
    (v : Float) (min max fallback : ℕ) → (clamp_float v min max fallback ≡ none) ↔ (v ≡ nan)
unfolding clamp_float
clamp_float-nan (finite v) min max fallback = ((λ h. cc), (λ h. cc))
clamp_float-nan (infinite true) min max fallback = ((λ h. cc), (λ h. cc))
clamp_float-nan (infinite false) min max fallback = ((λ h. cc), (λ h. cc))
clamp_float-nan nan min max fallback = ((λ h. refl), (λ h. refl))

or_float-nan : (o : Option Float) (fallback : ℤ) → or_float o fallback ≡ nan → o ≡ some nan
or_float-nan none fallback h = cc
or_float-nan (some v) fallback h = ap some h

to_float-nan :
    (scan : Scanners) (v : Value) (fallback : ℤ) → (to_float scan v fallback ≡ nan) ↔ IsNan scan v
unfolding to_float
to_float-nan scan nothing fallback = ((λ h. cc), (λ (s, e, h). cc))
to_float-nan scan (flag b) fallback = ((λ h. cc), (λ (s, e, h). cc))
to_float-nan scan (number v printed) fallback = ((λ h. cc), (λ (s, e, h). cc))
to_float-nan scan (other printed) fallback = ((λ h. cc), (λ (s, e, h). cc))
to_float-nan scan (text s) fallback = (
  (λ h. (s, refl, or_float-nan (scan.scan_float s) fallback h)),
  (λ (t, e, h).
      let same : t ≡ s = cc in
      let read : scan.scan_float s ≡ some nan = ap scan.scan_float (sym same) ∙ h in rw read refl),
)

past_checks {ℓ} :
    {A : Type ℓ} (record_type transport server_mode : Text) (rest : Cleaned A) (a : A)
    → checked record_type transport server_mode rest ≡ good a
    → (has record_type valid_record_types ≡ true)
      × (has transport transports ≡ true)
      × (has server_mode server_modes ≡ true)
      × (rest ≡ good a)
unfolding checked
past_checks record_type transport server_mode rest a h = ground (arith, h)

length-new_servers :
    (room : ℕ) (seen items : List Text) → 1 ≤ room → length (new_servers room seen items) ≤ room
unfolding new_servers
length-new_servers room seen [] h = omega arith
length-new_servers room seen (item ∷ items) h = ground (
  arith,
  h,
  length-new_servers room seen items,
  length-new_servers (room - 1) (trim_space item ∷ seen) items,
)

new_servers-unseen :
    (room : ℕ) (seen items : List Text) (k : Text)
    → has k seen ≡ true
    → has k (new_servers room seen items) ≡ false
unfolding new_servers
new_servers-unseen room seen [] k h = refl
new_servers-unseen room seen (item ∷ items) k h = ground (
  arith,
  h,
  new_servers-unseen room seen items k h,
  new_servers-unseen (room - 1) (trim_space item ∷ seen) items k,
  text_eq.beq_iff k (trim_space item),
)

new_servers-Distinct : (room : ℕ) (seen items : List Text) → Distinct (new_servers room seen items)
unfolding new_servers
new_servers-Distinct room seen [] = tt
new_servers-Distinct room seen (item ∷ items) = ground (
  arith,
  new_servers-Distinct room seen items,
  new_servers-Distinct (room - 1) (trim_space item ∷ seen) items,
  new_servers-unseen (room - 1) (trim_space item ∷ seen) items (trim_space item),
  text_eq.beq_iff (trim_space item) (trim_space item),
)

transport_for-IsStep :
    (record_type transport : Text)
    → has transport transports ≡ true
    → (has (transport_for record_type transport) transports ≡ true)
      × ((not (record_type == txt "AXFR") || transport_for record_type transport == txt "tcp")
          ≡ true)
unfolding text_beq
transport_for-IsStep record_type transport h = ground (arith, h)

good_inj {ℓ} : {A : Type ℓ} (a b : A) → Cleaned.good a ≡ good b → a ≡ b
good_inj a b e = cc

normalize_query_step-IsStep :
    (scan : Scanners) (target : Text) (get : Text → Value) (s : QueryStep)
    → normalize_query_step scan target get ≡ good s
    → IsStep s
unfolding normalize_query_step
normalize_query_step-IsStep scan target get s h =
    let (r, t, m, e) = past_checks _ _ _ _ s h in
    subst IsStep (good_inj _ s e) (
      let (t', x) = transport_for-IsStep _ _ t in
      (
        r,
        t',
        m,
        x,
        clamp_bounds (to_int scan (get (txt "repeat_count")) (pos 1)) 1 5 1 (omega arith),
      ))

and_step-good :
    (first : Cleaned QueryStep) (rest : Cleaned (List QueryStep)) (plan : List QueryStep)
    → and_step first rest ≡ good plan
    → (s : QueryStep) × (steps : List QueryStep) × (first ≡ good s)
      × (rest ≡ good steps)
      × (plan ≡ s ∷ steps)
and_step-good (bad e) rest plan h = cc
and_step-good (good s) (bad e) plan h = cc
and_step-good (good s) (good steps) plan h =
    (s, steps, refl, refl, good_inj plan (s ∷ steps) (sym h))

normalize_plan-IsStep :
    (scan : Scanners) (target : Text) (gets : List (Text → Value)) (plan : List QueryStep)
    → normalize_plan scan target gets ≡ good plan
    → All IsStep plan × (is_empty plan ≡ is_empty gets)
unfolding normalize_plan
normalize_plan-IsStep scan target [] plan h =
    subst (λ p. All IsStep p × (is_empty p ≡ true)) (good_inj [] plan h) (tt, refl)
normalize_plan-IsStep scan target (get ∷ gets) plan h =
    let (s, steps, first, rest, e) =
      and_step-good (normalize_query_step scan target get) (normalize_plan scan target gets) plan
        h in
    let (more, _) = normalize_plan-IsStep scan target gets steps rest in
    subst (λ p. All IsStep p × (is_empty p ≡ false)) (sym e)
      ((normalize_query_step-IsStep scan target get s first, more), refl)

-- The part of the options that does not hang on the plan.
abbrev IsInRange : DnsOptions → Type 0
IsInRange c =
    (is_empty c.resolver ≡ false)
    × WithinOrNan 1000 20000 c.timeout
    × Within 1 5 c.repeat_count
    × Within 1 8 c.trace_max_hops
    × Within 1 3 c.trace_max_ns_per_hop
    × Within 1 5 c.latency_sample_count
    × Within 3 30 c.route_max_hops
    × (length c.trace_root_servers ≤ 8)
    × Distinct c.trace_root_servers

with_plan-good :
    (opts : DnsOptions) (plan : Cleaned (List QueryStep)) (c : DnsOptions)
    → with_plan opts plan ≡ good c
    → (steps : List QueryStep) × (plan ≡ good steps) × (record opts { query_plan = steps } ≡ c)
with_plan-good opts (bad e) c h = cc
with_plan-good opts (good steps) c h = (steps, refl, good_inj _ c h)

IsClean-plan :
    (opts : DnsOptions) (plan : List QueryStep)
    → has opts.record_type valid_record_types ≡ true
    → has opts.transport transports ≡ true
    → has opts.server_mode server_modes ≡ true
    → IsInRange opts
    → is_empty plan ≡ false
    → All IsStep plan
    → IsClean (record opts { query_plan = plan })
IsClean-plan opts plan r t m (a, b, c, d, e, f, g, h, i) some_step steps =
    (r, t, m, a, b, c, d, e, f, g, h, i, some_step, steps)

build_query_plan-IsStep :
    (target : Text) (opts : DnsOptions)
    → has opts.record_type valid_record_types ≡ true
    → has opts.transport transports ≡ true
    → has opts.server_mode server_modes ≡ true
    → IsInRange opts
    → (is_empty (build_query_plan target opts) ≡ false) × All IsStep (build_query_plan target opts)
unfolding build_query_plan
build_query_plan-IsStep target opts r t m (a, b, c, d, e, f, g, h, i) =
    let (t', x) = transport_for-IsStep opts.record_type opts.transport t in
    (refl, ((r, t', m, x, c), tt))

planned :
    (scan : Scanners) (target : Text) (raw : RawOptions) (opts c : DnsOptions) (b : Bool)
    → is_empty raw.query_plan ≡ b
    → has opts.record_type valid_record_types ≡ true
    → has opts.transport transports ≡ true
    → has opts.server_mode server_modes ≡ true
    → IsInRange opts
    → (if b
        then good (record opts { query_plan = build_query_plan target opts })
        else with_plan opts (normalize_plan scan target raw.query_plan))
      ≡ good c
    → IsClean c
planned scan target raw opts c true e r t m set h =
    let (some_step, steps) = build_query_plan-IsStep target opts r t m set in
    subst IsClean (good_inj _ c h)
      (IsClean-plan opts (build_query_plan target opts) r t m set some_step steps)
planned scan target raw opts c false e r t m set h =
    let (plan, p, same) = with_plan-good opts (normalize_plan scan target raw.query_plan) c h in
    let (steps, some_step) = normalize_plan-IsStep scan target raw.query_plan plan p in
    subst IsClean same (IsClean-plan opts plan r t m set (some_step ∙ e) steps)

some_resolver : (v : Text) → is_empty (first_non_empty v (txt "8.8.8.8")) ≡ false
some_resolver [] = refl
some_resolver (c ∷ v) = refl

read_options-IsInRange :
    (scan : Scanners) (target : Text) (raw : RawOptions) → IsInRange (read_options scan target raw)
unfolding read_options normalize_root_servers
read_options-IsInRange scan target raw =
    let int = λ (key : Text) (default : ℕ). to_int scan (raw.get key) (pos default) in
    (
      some_resolver (trim_space (str (raw.get (txt "resolver")) (txt "8.8.8.8"))),
      clamp_float_bounds (to_float scan (raw.get (txt "timeout")) (pos 3000)) 1000 20000 3000
          (omega arith),
      clamp_bounds (int (txt "repeat_count") 1) 1 5 1 (omega arith),
      clamp_bounds (int (txt "trace_max_hops") 8) 1 8 8 (omega arith),
      clamp_bounds (int (txt "trace_max_ns_per_hop") 3) 1 3 3 (omega arith),
      clamp_bounds (int (txt "latency_sample_count") 5) 1 5 5 (omega arith),
      clamp_bounds (int (txt "route_max_hops") 16) 3 30 16 (omega arith),
      length-new_servers 8 [] (candidates raw.trace_root_servers) (omega arith),
      new_servers-Distinct 8 [] (candidates raw.trace_root_servers),
    )

-- The plan does not touch the timeout.
planned-timeout :
    (scan : Scanners) (target : Text) (raw : RawOptions) (opts c : DnsOptions) (b : Bool)
    → (if b
        then good (record opts { query_plan = build_query_plan target opts })
        else with_plan opts (normalize_plan scan target raw.query_plan))
      ≡ good c
    → c.timeout ≡ opts.timeout
planned-timeout scan target raw opts c true h = sym (ap (λ o. o.timeout) (good_inj _ c h))
planned-timeout scan target raw opts c false h =
    let (plan, p, same) = with_plan-good opts (normalize_plan scan target raw.query_plan) c h in
    sym (ap (λ o. o.timeout) same)

-- Options that are accepted are in range: a known type of record, transport and server mode, a
-- resolver, each number within its bounds, at most eight different root servers, and a plan of a
-- step at least, all of whose steps are right too. The timeout alone can be no number: it is NaN
-- exactly where it was given as a text that reads as NaN.
pub clean_dns_options-IsClean :
    (scan : Scanners) (target : Text) (raw : RawOptions) (c : DnsOptions)
    → clean_dns_options scan target raw ≡ good c
    → IsClean c × ((c.timeout ≡ none) ↔ IsNan scan (raw.get (txt "timeout")))
unfolding clean_dns_options read_options
clean_dns_options-IsClean scan target raw c h =
    let opts = read_options scan target raw in
    let (r, t, m, e) = past_checks opts.record_type opts.transport opts.server_mode _ c h in
    let given = raw.get (txt "timeout") in
    let v = to_float scan given (pos 3000) in
    let same = planned-timeout scan target raw opts c (is_empty raw.query_plan) e in
    let clamped = clamp_float-nan v 1000 20000 3000 in
    let floated = to_float-nan scan given (pos 3000) in
    (
      planned scan target raw opts c (is_empty raw.query_plan) refl r t m
          (read_options-IsInRange scan target raw) e,
      ((λ n. floated.0 (clamped.0 (sym same ∙ n))), (λ n. same ∙ clamped.1 (floated.1 n))),
    )
