-- ===== src/Sequences.antt =====
-- The ranges of tax numbers that DGII authorises: src/sequences/sequences.service.ts, with the tables
-- `companies`, `sequences` and `invoices` of prisma/schema.prisma as far as that service reads them.
-- Each handler is one step: the row that it works on is locked for its whole transaction.
pub mod Create
pub mod Assign
pub mod Stats
pub mod Annul
pub mod Invariant
use ecf_api.Prelude.{
  ℕ, suc, ◌+◌, ◌-◌, ◌≡◌, Bool, true, false, ◌&&◌, ◌||◌, List, [], ◌∷◌, ◌++◌, map, Option, none,
  some, ltb, leb, ◌==◌, if◌then◌else◌, max,
}
use ecf_api.Prelude.Int.{ℤ, sub_ℕ}
use ecf_api.Prelude.Text.{Text, codes, to_string, pad_start}
use ecf_api.Prelude.Results.{Result, ok, err, Transaction}
use ecf_api.Types.{
  Uuid, Time, EcfType, e31, e32, e33, e34, e41, e43, e44, e45, e46, e47, InvoiceStatus, type_eq,
}

-- `model Sequence`. The numbers are `Int` columns, below 2^31.
pub record Sequence : Type 0 where
  pub id : Uuid
  pub tenant_id : Uuid
  pub company_id : Uuid
  pub ecf_type : EcfType
  pub prefix : Text
  pub current_number : ℕ
  pub start_number : ℕ
  pub end_number : ℕ
  pub expires_at : Option Time
  pub is_active : Bool

-- The columns of `model Company` that the service reads.
pub record Company : Type 0 where
  pub id : Uuid
  pub tenant_id : Uuid
  pub is_active : Bool

-- The columns of `model Invoice` that the service reads.
pub record Invoice : Type 0 where
  pub tenant_id : Uuid
  pub company_id : Uuid
  pub ecf_type : EcfType
  pub encf : Option Text
  pub status : InvoiceStatus

-- The status of an annulment, which the schema keeps as a text.
pub data AnnulmentStatus : Type 0 where
  pending refused annulled : AnnulmentStatus

-- The columns of `model SequenceAnnulment` that the service decides.
pub record Annulment : Type 0 where
  pub tenant_id : Uuid
  pub company_id : Uuid
  pub encf_from : Text
  pub encf_to : Text
  pub status : AnnulmentStatus

-- The tables.
pub record Store : Type 0 where
  pub companies : List Company
  pub sequences : List Sequence
  pub invoices : List Invoice
  pub annulments : List Annulment

-- The exceptions, one constructor for each `throw`.
pub data Error : Type 0 where
  company_not_found start_not_below_end start_not_positive end_not_positive range_too_large : Error
  range_overlaps active_exists no_active_sequence sequence_expired override_out_of_range : Error
  sequence_exhausted : Error
  no_ranges incomplete_range invalid_encf mixed_types from_above_to no_registered_sequence : Error
  already_deactivated outside_sequence not_annullable middle_segment : Error
  service_failed anecf_not_sent anecf_refused : Error

-- `ECF_TYPE_PREFIX`
unfoldable pub ecf_type_prefix : EcfType → Text
ecf_type_prefix e31 = codes "E31"
ecf_type_prefix e32 = codes "E32"
ecf_type_prefix e33 = codes "E33"
ecf_type_prefix e34 = codes "E34"
ecf_type_prefix e41 = codes "E41"
ecf_type_prefix e43 = codes "E43"
ecf_type_prefix e44 = codes "E44"
ecf_type_prefix e45 = codes "E45"
ecf_type_prefix e46 = codes "E46"
ecf_type_prefix e47 = codes "E47"

-- `update({ where: { id }, data })`
abbrev pub update_row : Uuid → (Sequence → Sequence) → List Sequence → List Sequence
update_row k f [] = []
update_row k f (s ∷ rows) = (if s.id == k then f s else s) ∷ update_row k f rows

unfoldable pub update_sequence : Uuid → (Sequence → Sequence) → Store → Store
update_sequence k f st = record st { sequences = update_row k f st.sequences }

-- The conditions of `where: { id: dto.companyId, tenantId }`.
abbrev pub is_company : Uuid → Uuid → Company → Bool
is_company tenant company c = c.id == company && c.tenant_id == tenant

abbrev pub has_key : Uuid → EcfType → Sequence → Bool
has_key company ecf_type s = s.company_id == company && type_eq s.ecf_type ecf_type

-- The `WHERE` of the locking select in `assignNextEncf`.
abbrev pub is_active_for : Uuid → Uuid → EcfType → Sequence → Bool
is_active_for tenant company ecf_type s =
    s.tenant_id == tenant && has_key company ecf_type s && s.is_active

-- `${sequence.prefix}${String(n).padStart(10, '0')}`
unfoldable pub encf_of : Sequence → ℕ → Text
encf_of s n = s.prefix ++ pad_start 10 b'0' (to_string n)
