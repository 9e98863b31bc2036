-- ===== src/Types.antt =====
-- The enumerations of prisma/schema.prisma that several components share.
-- Identifiers (UUIDs) are only compared, so they are numbers here; a time is the number of
-- milliseconds since the epoch.
use ecf_api.Prelude.{ℕ, ◌≡◌, Bool, true, false, arith, ◌==◌}

abbrev pub Uuid : Type 0
Uuid = ℕ

abbrev pub Time : Type 0
Time = ℕ

-- `EcfType`
pub data EcfType : Type 0 where
  e31 e32 e33 e34 e41 e43 e44 e45 e46 e47 : EcfType

-- `InvoiceStatus`
pub data InvoiceStatus : Type 0 where
  draft queued processing sent accepted rejected conditional voided contingency error :
      InvoiceStatus

-- `DgiiEnvironment`
pub data DgiiEnv : Type 0 where
  dev cert prod : DgiiEnv

pub EcfType-discrete : Discrete EcfType
EcfType-discrete = hlevel

-- `===` on the enumerations.
abbrev pub env_is_dev : DgiiEnv → Bool
env_is_dev dev = true
env_is_dev _ = false

-- The place of a type in the enumeration, by which two are compared.
abbrev type_index : EcfType → ℕ
type_index e31 = 0
type_index e32 = 1
type_index e33 = 2
type_index e34 = 3
type_index e41 = 4
type_index e43 = 5
type_index e44 = 6
type_index e45 = 7
type_index e46 = 8
type_index e47 = 9

unfoldable pub type_eq : EcfType → EcfType → Bool
type_eq s t = type_index s == type_index t

pub type_eq_refl : (t : EcfType) → type_eq t t ≡ true
unfolding type_eq
type_eq_refl t = ground arith

pub type_eq→eq : (s t : EcfType) → type_eq s t ≡ true → s ≡ t
unfolding type_eq
type_eq→eq e31 t h = ground arith
type_eq→eq _ t h = ground arith
