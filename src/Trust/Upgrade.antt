-- ===== src/Trust/Upgrade.antt =====
-- internal/service/trust.go: the part of `ImportTrustManifest` that meets a row already stored:
-- what the manifest says fills in what is missing and raises what is lower.
use dnsgolang.Base.{
  Bool, true, false, not, ◌&&◌, ◌≡◌, refl, if◌then◌else◌, ◌==◌, text_eq, text_beq, beq→eq, subst,
  sym, ◌↔◌, ◌≢◌, is_empty, arith,
}
use dnsgolang.Base.Text.{Text, txt}
use dnsgolang.Trust.Manifest.{ManifestHost, ManifestItem, importance_high}

abbrev pub importance_critical : Text
importance_critical = txt "critical"

abbrev pub importance_medium : Text
importance_medium = txt "medium"

-- The columns of model.TrustDomain that the import writes to a stored row.
pub record TrustDomain : Type 0 where
  pub owner : Text
  pub importance : Text
  pub notes : Text
  pub enabled : Bool

-- The columns of model.TrustHost that the import writes to a stored row.
pub record TrustHost : Type 0 where
  pub notes : Text
  pub enabled : Bool

pub record Upgraded {ℓ} (A : Type ℓ) : Type ℓ where
  pub row : A
  pub changed : Bool

module _ {ℓ} {A : Type ℓ} where
  -- `if guard { row.Field, changed = …, true }`
  abbrev pub set_if : Bool → (A → A) → Upgraded A → Upgraded A
  set_if guard f u = if guard then record { row = f u.row; changed = true } else u

unfoldable pub upgrade_owner : ManifestItem → Upgraded TrustDomain → Upgraded TrustDomain
upgrade_owner item u =
    set_if (is_empty u.row.owner && not (is_empty item.owner))
      (λ d. record d { owner = item.owner }) u

unfoldable pub upgrade_importance : ManifestItem → Upgraded TrustDomain → Upgraded TrustDomain
upgrade_importance item u =
    if item.importance == importance_critical && not (u.row.importance == importance_critical)
    then set_if true (λ d. record d { importance = item.importance }) u
    else set_if (item.importance == importance_high && u.row.importance == importance_medium)
        (λ d. record d { importance = item.importance }) u

unfoldable pub upgrade_notes : ManifestItem → Upgraded TrustDomain → Upgraded TrustDomain
upgrade_notes item u =
    set_if (is_empty u.row.notes && not (is_empty item.notes))
      (λ d. record d { notes = item.notes }) u

unfoldable pub upgrade_enabled : ManifestItem → Upgraded TrustDomain → Upgraded TrustDomain
upgrade_enabled item u =
    set_if (not u.row.enabled && item.enabled) (λ d. record d { enabled = true }) u

unfoldable pub upgrade_domain : ManifestItem → TrustDomain → Upgraded TrustDomain
unfolding upgrade_owner upgrade_importance upgrade_notes upgrade_enabled
upgrade_domain item d = upgrade_enabled item (
    upgrade_notes item
      (upgrade_importance item (upgrade_owner item (record { row = d; changed = false }))))

unfoldable pub upgrade_host : ManifestHost → TrustHost → Upgraded TrustHost
upgrade_host item h =
    set_if (not h.enabled && item.enabled) (λ r. record r { enabled = true })
      (set_if (is_empty h.notes && not (is_empty item.notes)) (λ r. record r { notes = item.notes })
        (record { row = h; changed = false }))

high_not_medium : (s : Text) → (s == importance_high) ≡ true → (s == importance_medium) ≡ false
unfolding text_beq
high_not_medium s h =
    subst (λ t. (t == importance_medium) ≡ false) (sym (beq→eq s importance_high h)) refl

-- An import that is repeated changes nothing more: the row that it leaves is settled.
pub upgrade_domain-twice :
    (item : ManifestItem) (d : TrustDomain)
    → upgrade_domain item (upgrade_domain item d).row
      ≡ record { row = (upgrade_domain item d).row; changed = false }
unfolding upgrade_domain upgrade_owner upgrade_importance upgrade_notes upgrade_enabled
upgrade_domain-twice item d =
    ground (arith, high_not_medium item.importance, high_not_medium d.importance)

-- The row is reported as changed exactly when it is not the row that was stored.
pub upgrade_domain-changed :
    (item : ManifestItem) (d : TrustDomain)
    → ((upgrade_domain item d).changed ≡ false) ↔ ((upgrade_domain item d).row ≡ d)
unfolding upgrade_domain upgrade_owner upgrade_importance upgrade_notes upgrade_enabled text_beq
upgrade_domain-changed item d =
    ground (arith, high_not_medium item.importance, high_not_medium d.importance)

-- An import never takes away: an owner and notes that are there stay as they are, a row that is
-- enabled stays enabled, a critical one stays critical, and a high one does not become medium.
pub upgrade_domain-keeps :
    (item : ManifestItem) (d : TrustDomain)
    → (is_empty d.owner ≡ false → (upgrade_domain item d).row.owner ≡ d.owner)
      × (is_empty d.notes ≡ false → (upgrade_domain item d).row.notes ≡ d.notes)
      × (d.enabled ≡ true → (upgrade_domain item d).row.enabled ≡ true)
      × (d.importance ≡ importance_critical
          → (upgrade_domain item d).row.importance ≡ importance_critical)
      × (d.importance ≡ importance_high
          → (upgrade_domain item d).row.importance ≢ importance_medium)
unfolding upgrade_domain upgrade_owner upgrade_importance upgrade_notes upgrade_enabled text_beq
upgrade_domain-keeps item d = (
  (λ h. ground (arith, h)),
  (λ h. ground (arith, h)),
  (λ h. ground (arith, h)),
  (λ h. ground (
    arith,
    h,
    beq→eq item.importance importance_critical,
    beq→eq item.importance importance_high,
  )),
  (λ h k. ground (arith, h, k, high_not_medium item.importance)),
)

-- The same of a host: a second import leaves the row as it is.
pub upgrade_host-twice :
    (item : ManifestHost) (h : TrustHost)
    → upgrade_host item (upgrade_host item h).row
      ≡ record { row = (upgrade_host item h).row; changed = false }
unfolding upgrade_host
upgrade_host-twice item h = ground arith
