-- ===== src/Trust/Manifest/Normal.antt =====
-- internal/service/trust.go: what `normalizeManifest` guarantees of the manifest that it accepts.
use dnsgolang.Base.{
  ◌≡◌, refl, ap, subst, suc, ◌⊎◌, inl, inr, true, false, List, [], ◌∷◌, arith, Bool-cases, text_eq,
  text_beq_iff, is_empty, All, length, beq_refl,
}
use dnsgolang.Base.Text.{Text}
use dnsgolang.Base.Sets.{has, Distinct}
use dnsgolang.Trust.Manifest.{
  ManifestHost, ManifestItem, Checked, ok, err, normalize_fqdn, env_prod, env_lab, kept_hosts,
  host_names, with_apex, normalize_item, normalize_from, ◌>>=◌, normalize_manifest, or_default,
}

kept-fresh :
    (seen : List Text) (hs : List ManifestHost) (k : Text)
    → has k (host_names (kept_hosts seen hs)) ≡ true
    → (has k seen ≡ false) × (is_empty k ≡ false)
unfolding kept_hosts
kept-fresh seen [] k h = cc
kept-fresh seen (x ∷ hs) k h = ground (
  arith,
  kept-fresh (normalize_fqdn x.fqdn ∷ seen) hs k,
  kept-fresh seen hs k,
  text_beq_iff k (normalize_fqdn x.fqdn),
)

kept-Distinct :
    (seen : List Text) (hs : List ManifestHost) → Distinct (host_names (kept_hosts seen hs))
unfolding kept_hosts
kept-Distinct seen [] = tt
kept-Distinct seen (x ∷ hs) =
    let name = normalize_fqdn x.fqdn in
    ground (
      arith,
      kept-Distinct (name ∷ seen) hs,
      kept-Distinct seen hs,
      kept-fresh (name ∷ seen) hs name,
      text_beq_iff name name,
    )

-- The hosts of an item: no name twice, none empty, and the domain's own name among them.
pub record IsHosted (domain : Text) (hs : List ManifestHost) : Type 0 where
  pub distinct : Distinct (host_names hs)
  pub named : (k : Text) → has k (host_names hs) ≡ true → is_empty k ≡ false
  pub apex : has domain (host_names hs) ≡ true

with_apex-IsHosted :
    (domain : Text) (hs : List ManifestHost)
    → is_empty domain ≡ false
    → IsHosted domain (with_apex domain (kept_hosts [] hs))
unfolding with_apex
with_apex-IsHosted domain hs full =
    let kept = kept_hosts [] hs in
    elim (Bool-cases (has domain (host_names kept))) [
      | inl e ↦ rw e (record {
        distinct = kept-Distinct [] hs;
        named = λ k h. (kept-fresh [] hs k h).1;
        apex = e;
      })
      | inr e ↦ rw e (record {
        distinct = (e, kept-Distinct [] hs);
        named = λ k h. ground (arith, kept-fresh [] hs k, text_beq_iff k domain, h);
        apex = rw (beq_refl domain);
      })
    ]

-- A normal item of an import into an environment.
pub record IsNormal (environment : Text) (item : ManifestItem) : Type 0 where
  pub same_environment : item.environment ≡ environment
  pub named_domain : is_empty item.domain ≡ false
  pub rated : is_empty item.importance ≡ false
  pub hosted : IsHosted item.domain item.key_hosts

abbrev pub IsKnown : Text → Type 0
IsKnown environment = (environment ≡ env_prod) ⊎ (environment ≡ env_lab)

normalize_item-IsNormal :
    (before : Text) (item out : ManifestItem)
    → normalize_item before item ≡ ok out
    → IsNormal out.environment out
      × IsKnown out.environment
      × ((is_empty before ≡ true) ⊎ (before ≡ out.environment))
unfolding normalize_item
normalize_item-IsNormal before item out e =
    let domain : out.domain ≡ normalize_fqdn item.domain = ground arith in
    let hosts : out.key_hosts
        ≡ with_apex (normalize_fqdn item.domain) (kept_hosts [] item.key_hosts) =
      ground arith in
    let full : is_empty (normalize_fqdn item.domain) ≡ false = ground arith in
    (
      record {
        same_environment = refl;
        named_domain = rw domain full;
        rated = ground arith;
        hosted =
            rw (domain, hosts)
              (with_apex-IsHosted (normalize_fqdn item.domain) item.key_hosts full);
      },
      ground (arith, text_beq_iff out.environment env_prod, text_beq_iff out.environment env_lab),
      ground (arith, text_beq_iff before out.environment),
    )

-- The accepted items are as many as the given ones, and all normal for the environment that is
-- returned with them, which is that of the rounds before if there was one.
abbrev IsAccepted : Text → List ManifestItem → List ManifestItem × Text → Type 0
IsAccepted before items out =
    (length out.0 ≡ length items)
    × All (IsNormal out.1) out.0
    × ((is_empty before ≡ true) ⊎ (before ≡ out.1))
    × (((is_empty out.0 ≡ true) × (out.1 ≡ before)) ⊎ IsKnown out.1)

-- A chain that is accepted was accepted at its first step, and then at the second.
accepted_twice :
    {X Y : Type 0} (step : Checked X) (next : X → Checked Y) {y : Y}
    → (step >>= next) ≡ ok y
    → (x : X) × (step ≡ ok x) × (next x ≡ ok y)
accepted_twice (err why) next done = cc
accepted_twice (ok x) next done = (x, refl, done)

Known-not_empty : (environment : Text) → IsKnown environment → is_empty environment ≡ false
Known-not_empty environment (inl e) = rw e
Known-not_empty environment (inr e) = rw e

accept :
    (before : Text) (first : ManifestItem) (items rest : List ManifestItem) (environment : Text)
    → IsNormal first.environment first
    → IsKnown first.environment
    → (is_empty before ≡ true) ⊎ (before ≡ first.environment)
    → first.environment ≡ environment
    → (length rest ≡ length items)
    → All (IsNormal environment) rest
    → (item : ManifestItem) → IsAccepted before (item ∷ items) (first ∷ rest, environment)
accept before first items rest environment normal known since same len all item = (
  ap suc len,
  (subst (λ v. IsNormal v first) same normal, all),
  subst (λ v. (is_empty before ≡ true) ⊎ (before ≡ v)) same since,
  inr (subst IsKnown same known),
)

normalize_from-IsAccepted :
    (before : Text) (items : List ManifestItem) (out : List ManifestItem × Text)
    → normalize_from before items ≡ ok out
    → IsAccepted before items out
unfolding normalize_from
normalize_from-IsAccepted before [] out e =
    let same : ([], before) ≡ out = cc in
    subst (IsAccepted before []) same (refl, tt, inr refl, inl (refl, refl))
normalize_from-IsAccepted before (item ∷ items) out e =
    let (first, e₁, f₁) = accepted_twice (normalize_item before item) _ e in
    let (rest, e₂, f₂) = accepted_twice (normalize_from first.environment items) _ f₁ in
    let (normal, known, since) = normalize_item-IsNormal before item first e₁ in
    let (len, all, here, _) = normalize_from-IsAccepted first.environment items rest e₂ in
    let full = Known-not_empty first.environment known in
    let same : first.environment ≡ rest.1 = elim here [ inl z ↦ cc | inr q ↦ q ] in
    let whole : (first ∷ rest.0, rest.1) ≡ out = cc in
    subst (IsAccepted before (item ∷ items)) whole
      (accept before first items rest.0 rest.1 normal known since same len all item)

abbrev IsFinal : List ManifestItem → List ManifestItem × Text → Type 0
IsFinal items out = (length out.0 ≡ length items) × All (IsNormal out.1) out.0 × IsKnown out.1

finish :
    (items got : List ManifestItem) (environment : Text)
    → IsAccepted [] items (got, environment)
    → IsFinal items (got, or_default environment env_prod)
finish items [] environment (len, all, _, inl (z, q)) = (len, tt, rw q (inl refl))
finish items (x ∷ xs) environment (len, all, _, inl (z, q)) = cc
finish items got environment (len, all, _, inr known) =
    rw (Known-not_empty environment known) (len, all, known)

-- A manifest that is accepted keeps its items, as many as there were. Its environment is prod or
-- lab and that of each item; each item has a name and an importance, and its hosts have distinct
-- names, none of them empty, the name of the domain among them.
pub normalize_manifest-IsNormal :
    (items out : List ManifestItem) (environment : Text)
    → normalize_manifest items ≡ ok (out, environment)
    → (length out ≡ length items) × All (IsNormal environment) out × IsKnown environment
unfolding normalize_manifest
normalize_manifest-IsNormal items out environment e =
    let (got, e₁, f₁) = accepted_twice (normalize_from [] items) _ e in
    let whole : (got.0, or_default got.1 env_prod) ≡ (out, environment) = cc in
    subst (IsFinal items) whole
      (finish items got.0 got.1 (normalize_from-IsAccepted [] items got e₁))
