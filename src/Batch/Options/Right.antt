-- ===== src/Batch/Options/Right.antt =====
-- internal/service/batch.go: what holds of the options of a batch that are accepted.
use dnsgolang.Base.{
  ℕ, ◌≤◌, ◌≡◌, refl, sym, ap, ◌∙◌, true, false, some, not, map, length, is_empty, all, ltb,
  Option-cases, ◌&&◌, ◌||◌, List, [], ◌∷◌, ◌==◌, text_eq, All, arith, pos, subst, Bool-cases, inl,
  inr,
}
use dnsgolang.Base.Text.{Text, txt}
use dnsgolang.Base.Sets.{has}
use dnsgolang.Trust.Discovery.{QueryStep}
use dnsgolang.Probing.Options.{
  Value, RawOptions, Scanners, DnsOptions, Cleaned, good, bad, upper, clean_dns_options,
  valid_record_types, transports, server_modes,
}
use dnsgolang.Probing.Options.Clean.{
  Within, WithinOrNan, IsStep, IsClean, clamp_bounds, clean_dns_options-IsClean,
}
use dnsgolang.Batch.Options.{
  CleanOptions, http, dns, ping, route, no_options, Answered, given, wrong, str_any, to_int_any,
  from_dns, step_of_json, of_json, struct_to_map, clean_http, clean_single_batch_options,
  and_options, clean_each, clean_batch_options,
}

-- Plain texts come back from JSON as they are.
abbrev pub KeepsPlain : (Text → Text) → Type 0
KeepsPlain json = (s : Text) → all (λ c. ltb c 128) s ≡ true → json s ≡ s

-- The options of DNS as they are stored: a known type of record, transport and server mode, a
-- timeout, all numbers within their bounds, at most eight root servers, and a plan of right steps.
abbrev pub IsStored : DnsOptions → Type 0
IsStored c =
    (has c.record_type valid_record_types ≡ true)
    × (has c.transport transports ≡ true)
    × (has c.server_mode server_modes ≡ true)
    × ((t : ℕ) × (c.timeout ≡ some t) × Within 1000 20000 t)
    × Within 1 5 c.repeat_count
    × Within 1 8 c.trace_max_hops
    × Within 1 3 c.trace_max_ns_per_hop
    × Within 1 5 c.latency_sample_count
    × Within 3 30 c.route_max_hops
    × (length c.trace_root_servers ≤ 8)
    × (is_empty c.query_plan ≡ false)
    × All IsStep c.query_plan

length-map : (f : Text → Text) (xs : List Text) → length (map f xs) ≡ length xs
length-map f [] = refl
length-map f (x ∷ xs) = omega (arith, length-map f xs)

is_empty-map : (f : QueryStep → QueryStep) (xs : List QueryStep) → is_empty (map f xs) ≡ is_empty xs
is_empty-map f [] = refl
is_empty-map f (x ∷ xs) = refl

module _ (json : Text → Text) (plain : KeepsPlain json) where
  known-kept :
      (ks : List Text) (x : Text)
      → all (all (λ c. ltb c 128)) ks ≡ true
      → has x ks ≡ true
      → json x ≡ x
  known-kept [] x h k = cc
  known-kept (y ∷ ks) x h k = elim (Bool-cases (x == y)) [
    | inl same ↦
        let e : x ≡ y = (text_eq.beq_iff x y).0 same in
        plain x (ap (all (λ c. ltb c 128)) e ∙ ground (arith, h))
    | inr other ↦ known-kept ks x (ground (arith, h)) (ground (arith, k, other))
  ]

  step_of_json-IsStep : (s : QueryStep) → IsStep s → IsStep (step_of_json json s)
  unfolding step_of_json
  step_of_json-IsStep s (r, t, m, x, n) =
      let r' = known-kept valid_record_types s.record_type refl r in
      let t' = known-kept transports s.transport refl t in
      (
        subst (λ k. has k valid_record_types ≡ true) (sym r') r,
        subst (λ k. has k transports ≡ true) (sym t') t,
        subst (λ k. has k server_modes ≡ true) (sym (known-kept server_modes s.server_mode refl m))
            m,
        subst (λ k. (not (k == txt "AXFR") || json s.transport == txt "tcp") ≡ true) (sym r')
            (subst (λ k. (not (s.record_type == txt "AXFR") || k == txt "tcp") ≡ true) (sym t') x),
        n,
      )

  map-step_of_json-IsStep :
      (plan : List QueryStep) → All IsStep plan → All IsStep (map (step_of_json json) plan)
  map-step_of_json-IsStep [] h = tt
  map-step_of_json-IsStep (s ∷ plan) (h, hs) =
      (step_of_json-IsStep s h, map-step_of_json-IsStep plan hs)

  of_json-IsStored :
      (c : DnsOptions) (t : ℕ) → c.timeout ≡ some t → IsClean c → IsStored (of_json json c)
  unfolding of_json
  of_json-IsStored c t e (r, tr, m, _, within, b, d, f, g, h, n, _, some_step, steps) = (
    subst (λ k. has k valid_record_types ≡ true)
        (sym (known-kept valid_record_types c.record_type refl r)) r,
    subst (λ k. has k transports ≡ true) (sym (known-kept transports c.transport refl tr)) tr,
    subst (λ k. has k server_modes ≡ true) (sym (known-kept server_modes c.server_mode refl m)) m,
    (t, e, subst (WithinOrNan 1000 20000) e within),
    b,
    d,
    f,
    g,
    h,
    subst (λ k. k ≤ 8) (sym (length-map json c.trace_root_servers)) n,
    is_empty-map (step_of_json json) c.query_plan ∙ some_step,
    map-step_of_json-IsStep c.query_plan steps,
  )

-- The numbers are within their bounds, and HTTP asks with GET or HEAD.
abbrev pub IsRight : CleanOptions → Type 0
IsRight (http method timeout follow verify) =
    ((method == txt "GET" || method == txt "HEAD") ≡ true) × Within 1 30 timeout
IsRight (dns options) = IsStored options
IsRight (ping count timeout) = Within 1 10 count × Within 1 10 timeout
IsRight (route max_hops query_count timeout numeric) =
    Within 1 30 max_hops × Within 1 10 query_count × Within 1 10 timeout
IsRight no_options = Unit

-- What is given, if anything is, is right.
abbrev RightIf : Answered CleanOptions → Type 0
RightIf (given o) = IsRight o
RightIf (wrong e) = Unit

abbrev AllRightIf : Answered (List (Text × CleanOptions)) → Type 0
AllRightIf (given os) = All (λ o. IsRight o.1) os
AllRightIf (wrong e) = Unit

struct_to_map-IsRight :
    (json : Text → Text) (c : DnsOptions)
    → KeepsPlain json
    → IsClean c
    → IsRight (struct_to_map json c)
unfolding struct_to_map
struct_to_map-IsRight json c plain clean = elim (Option-cases c.timeout) [
  | inl e ↦ rw e tt
  | inr (t, e) ↦ rw (e, struct_to_map) (of_json-IsStored json plain c t e clean)
]

from_dns-RightIf :
    (json : Text → Text) (o : Cleaned DnsOptions)
    → KeepsPlain json
    → ((c : DnsOptions) → o ≡ good c → IsClean c)
    → RightIf (from_dns json o)
from_dns-RightIf json (good c) plain h = struct_to_map-IsRight json c plain (h c refl)
from_dns-RightIf json (bad e) plain h = tt

clean_http-RightIf : (get : Text → Value) → RightIf (clean_http get)
unfolding clean_http
clean_http-RightIf get =
    let method = upper (str_any (get (txt "method")) (txt "GET")) in
    elim (Bool-cases (not (method == txt "GET") && not (method == txt "HEAD"))) [
      | inl e ↦ rw (e, clean_http) tt
      | inr e ↦
          rw (e, clean_http)
            (
              ground (arith, e),
              clamp_bounds (to_int_any (get (txt "timeout")) (pos 10)) 1 30 10 (omega arith),
            )
    ]

clean_single_batch_options-RightIf :
    (json : Text → Text) (plain : KeepsPlain json) (scan : Scanners) (protocol : Text)
    (raw : RawOptions)
    → RightIf (clean_single_batch_options json scan protocol raw)
unfolding clean_single_batch_options
clean_single_batch_options-RightIf json plain scan protocol raw =
    let int = λ (key : Text) (default : ℕ). to_int_any (raw.get key) (pos default) in
    elim (Bool-cases (protocol == txt "dns")) [
      | inl e ↦
          rw (e, clean_single_batch_options)
            (from_dns-RightIf json (clean_dns_options scan (txt "example.com") raw) plain
              (λ c h. (clean_dns_options-IsClean scan (txt "example.com") raw c h).0))
      | inr e ↦ elim (Bool-cases (protocol == txt "http")) [
        | inl f ↦ rw (e, clean_single_batch_options) (rw f (clean_http-RightIf raw.get))
        | inr f ↦ elim (Bool-cases (protocol == txt "ping")) [
          | inl g ↦
              rw (e, clean_single_batch_options)
                (rw (f, g)
                  (
                    clamp_bounds (int (txt "count") 4) 1 10 4 (omega arith),
                    clamp_bounds (int (txt "timeout") 2) 1 10 2 (omega arith),
                  ))
          | inr g ↦ elim (Bool-cases (protocol == txt "mtr" || protocol == txt "traceroute")) [
            | inl h ↦
                rw (e, clean_single_batch_options)
                  (rw (f, g, h)
                    (
                      clamp_bounds (int (txt "max_hops") 20) 1 30 20 (omega arith),
                      clamp_bounds (int (txt "query_count") 3) 1 10 3 (omega arith),
                      clamp_bounds (int (txt "timeout") 2) 1 10 2 (omega arith),
                    ))
            | inr h ↦ rw (e, clean_single_batch_options) (rw (f, g, h) tt)
          ]
        ]
      ]
    ]

and_options-AllRightIf :
    (protocol : Text) (o : Answered CleanOptions) (os : Answered (List (Text × CleanOptions)))
    → RightIf o
    → AllRightIf os
    → AllRightIf (and_options protocol o os)
and_options-AllRightIf protocol (given o) (given os) h k = (h, k)
and_options-AllRightIf protocol (given o) (wrong e) h k = tt
and_options-AllRightIf protocol (wrong e) os h k = tt

clean_each-AllRightIf :
    (json : Text → Text) (plain : KeepsPlain json) (scan : Scanners) (options : Text → RawOptions)
    (ps : List Text)
    → AllRightIf (clean_each json scan options ps)
unfolding clean_each
clean_each-AllRightIf json plain scan options [] = tt
clean_each-AllRightIf json plain scan options (p ∷ ps) =
    and_options-AllRightIf p (clean_single_batch_options json scan p (options p))
      (clean_each json scan options ps)
      (clean_single_batch_options-RightIf json plain scan p (options p))
      (clean_each-AllRightIf json plain scan options ps)

clean_batch_options-AllRightIf :
    (json : Text → Text) (plain : KeepsPlain json) (scan : Scanners) (protocol : Text)
    (raw : RawOptions) (sub : Text → RawOptions)
    → AllRightIf (clean_batch_options json scan protocol raw sub)
unfolding clean_batch_options
clean_batch_options-AllRightIf json plain scan protocol raw sub =
    elim (Bool-cases (protocol == txt "all")) [
      | inl e ↦
          rw (e, clean_batch_options)
            (clean_each-AllRightIf json plain scan sub
              (txt "http" ∷ txt "ping" ∷ txt "dns" ∷ txt "mtr" ∷ txt "traceroute" ∷ []))
      | inr e ↦
          rw (e, clean_batch_options)
            (clean_each-AllRightIf json plain scan (λ p. raw) (protocol ∷ []))
    ]

-- Where JSON keeps plain texts, the options of a batch that are accepted are right for each of its
-- protocols: each number is within its bounds, HTTP asks with GET or HEAD, and those of DNS, if any
-- are stored, have a timeout, a known type, transport and server mode and a plan of right steps.
pub clean_batch_options-IsRight :
    (json : Text → Text) (plain : KeepsPlain json) (scan : Scanners) (protocol : Text)
    (raw : RawOptions) (sub : Text → RawOptions) (cleaned : List (Text × CleanOptions))
    → clean_batch_options json scan protocol raw sub ≡ given cleaned
    → All (λ o. IsRight o.1) cleaned
clean_batch_options-IsRight json plain scan protocol raw sub cleaned h =
    subst AllRightIf h (clean_batch_options-AllRightIf json plain scan protocol raw sub)
