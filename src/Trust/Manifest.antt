-- ===== src/Trust/Manifest.antt =====
-- internal/service/trust.go: the items of a manifest and `normalizeManifest`.
pub mod Normal
pub mod Yaml
pub mod Bare
use dnsgolang.Base.{
  Bool, true, false, not, ◌&&◌, ◌||◌, List, [], ◌∷◌, map, if◌then◌else◌, ◌==◌, text_eq, is_empty,
}
use dnsgolang.Base.Text.{Text, txt, lower, trim, trim_space, is_dot}
use dnsgolang.Base.Sets.{has}

pub record ManifestHost : Type 0 where
  pub fqdn : Text
  pub allow_wildcard : Bool
  pub allow_axfr : Bool
  pub allow_rebind : Bool
  pub dnssec_expected : Bool
  pub enabled : Bool
  pub notes : Text

pub record ManifestItem : Type 0 where
  pub domain : Text
  pub owner : Text
  pub importance : Text
  pub environment : Text
  pub enabled : Bool
  pub notes : Text
  pub allow_wildcard : Bool
  pub allow_axfr : Bool
  pub allow_rebind : Bool
  pub dnssec_expected : Bool
  pub key_hosts : List ManifestHost

pub data ManifestError : Type 0 where
  empty_manifest invalid_structure empty_domain mixed_environments : ManifestError
  unsupported_environment unsupported_format : Text → ManifestError

pub data Checked {ℓ} (A : Type ℓ) : Type ℓ where
  ok : A → Checked A
  err : ManifestError → Checked A

infixl 5 ◌>>=◌
abbrev pub ◌>>=◌ {ℓ κ} : {X : Type ℓ} {Y : Type κ} → Checked X → (X → Checked Y) → Checked Y
ok x >>= k = k x
err why >>= k = err why

unfoldable pub normalize_fqdn : Text → Text
unfolding lower trim trim_space
normalize_fqdn v = lower (trim is_dot (trim_space v))

abbrev pub env_prod : Text
env_prod = txt "prod"

abbrev pub env_lab : Text
env_lab = txt "lab"

abbrev pub importance_high : Text
importance_high = txt "high"

-- The loop over the hosts of an item; `seen` holds the names kept so far.
unfoldable pub kept_hosts : List Text → List ManifestHost → List ManifestHost
kept_hosts seen [] = []
kept_hosts seen (h ∷ hs) =
    let name = normalize_fqdn h.fqdn in
    let taken = record h { fqdn = name } ∷ kept_hosts (name ∷ seen) hs in
    let skipped = kept_hosts seen hs in if is_empty name || has name seen then skipped else taken

abbrev pub host_names : List ManifestHost → List Text
host_names hs = map (λ h. h.fqdn) hs

abbrev pub auto_apex : Text → ManifestHost
auto_apex domain = record {
  fqdn = domain;
  allow_wildcard = false;
  allow_axfr = false;
  allow_rebind = false;
  dnssec_expected = false;
  enabled = true;
  notes = txt "manifest auto apex";
}

-- `seen[item.Domain]` after the loop is whether a kept host has the name.
unfoldable pub with_apex : Text → List ManifestHost → List ManifestHost
with_apex domain hs = if has domain (host_names hs) then hs else auto_apex domain ∷ hs

abbrev pub or_default : Text → Text → Text
or_default v fallback = if is_empty v then fallback else v

-- One round of the loop over the items, given the environment of the rounds before.
unfoldable pub normalize_item : Text → ManifestItem → Checked ManifestItem
normalize_item before item =
    let domain = normalize_fqdn item.domain in
    let environment = or_default item.environment env_prod in
    if is_empty domain
    then err empty_domain
    else if not (environment == env_prod) && not (environment == env_lab)
    then err (unsupported_environment environment)
    else if not (is_empty before) && not (before == environment)
    then err mixed_environments
    else ok (record item {
      domain = domain;
      environment = environment;
      importance = or_default item.importance importance_high;
      key_hosts = with_apex domain (kept_hosts [] item.key_hosts);
    })

unfoldable pub normalize_from : Text → List ManifestItem → Checked (List ManifestItem × Text)
normalize_from before [] = ok ([], before)
normalize_from before (item ∷ items) = normalize_item before item >>= λ first.
    normalize_from first.environment items >>= λ rest. ok (first ∷ rest.0, rest.1)

unfoldable pub normalize_manifest : List ManifestItem → Checked (List ManifestItem × Text)
unfolding normalize_from
normalize_manifest items = normalize_from [] items >>= λ out. ok (out.0, or_default out.1 env_prod)
