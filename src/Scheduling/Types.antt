-- ===== src/Scheduling/Types.antt =====
-- internal/model/models.go: the rows that the scheduler reads. A time is a number of
-- microseconds, a coordinate one of
-- millionths of a degree. A query returns the rows that it found, or the error of the database.
use dnsgolang.Base.{ℕ, ℤ, Bool, Option}
use dnsgolang.Base.Text.{Text}

pub data Transport : Type 0 where
  local mqtt : Transport

pub data NodeStatus : Type 0 where
  online offline maintenance : NodeStatus

pub record Node : Type 0 where
  pub id : ℕ
  pub code : Text
  pub name : Text
  pub region_code : Text
  pub transport : Transport
  pub status : NodeStatus
  pub last_heartbeat : Option ℕ
  pub is_default : Bool

pub record Region : Type 0 where
  pub id : ℕ
  pub code : Text
  pub name : Text
  pub display_order : ℤ
  pub map_lng : ℤ
  pub map_lat : ℤ

-- A Go pair of a value and an `error`.
pub data Result {ℓ} (A : Type ℓ) : Type ℓ where
  ok : A → Result A
  err : Text → Result A

infixl 5 ◌>>=◌
abbrev pub ◌>>=◌ {ℓ κ} : {X : Type ℓ} {Y : Type κ} → Result X → (X → Result Y) → Result Y
ok x >>= k = k x
err why >>= k = err why
