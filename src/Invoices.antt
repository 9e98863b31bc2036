-- ===== src/Invoices.antt =====
-- The emission of invoices of src/invoices/invoices.service.ts: the request, and the tables of
-- prisma/schema.prisma that it reads and writes. `books.companies` and `books.reverted` hold columns of
-- the same companies and invoices (`dgiiEnv`, `usageReverted`), as the metering reads them.
pub mod Create
pub mod Status
use ecf_api.Prelude.{
  ℕ, Bool, true, false, ◌&&◌, not, List, [], ◌∷◌, Option, none, some, ◌==◌, map, if◌then◌else◌,
}
use ecf_api.Prelude.Text.{Text, text_eq}
use ecf_api.Prelude.Rows.{find_first}
use ecf_api.Types.{Uuid, Time, EcfType, InvoiceStatus, DgiiEnv, prod}
use ecf_api.Sequences.{Sequence, Annulment, Store}
use ecf_api.Billing.{Books}
use ecf_api.Billing.Tenants.{TenantPlan}
use ecf_api.Amounts.{ItemInput}

-- The columns of `model Company` that the service reads.
pub record Company : Type 0 where
  pub id : Uuid
  pub tenant_id : Uuid
  pub is_active : Bool
  pub dgii_env : DgiiEnv

-- The columns of `model InvoiceLine` that the service computes.
pub record InvoiceLine (D : Type 0) : Type 0 where
  pub line_number : ℕ
  pub discount : D
  pub itbis_rate : D
  pub itbis_amount : D
  pub subtotal : D

-- The columns of `model Invoice` that the service decides, with the lines of the invoice.
pub record Emitted (D : Type 0) : Type 0 where
  pub id : Uuid
  pub tenant_id : Uuid
  pub company_id : Uuid
  pub ecf_type : EcfType
  pub encf : Option Text
  pub status : InvoiceStatus
  pub idempotency_key : Option Text
  pub reference_encf : Option Text
  pub track_id : Option Text
  pub is_rfce : Bool
  pub total_amount : D
  pub xml_unsigned : Text
  pub xml_signed : Option Text
  pub xml_rfce : Option Text
  pub created_at : Time
  pub dgii_message : Option Text
  pub lines : List (InvoiceLine D)

-- The tables.
pub record Office (D : Type 0) : Type 0 where
  pub companies : List Company
  pub sequences : List Sequence
  pub annulments : List Annulment
  pub invoices : List (Emitted D)
  pub books : Books
  pub tenant_plans : List TenantPlan

-- `CreateInvoiceDto`, as far as the service reads it. The other fields go to the document and to
-- columns that nothing here reads.
pub record CreateInvoiceDto (D : Type 0) : Type 0 where
  pub idempotency_key : Option Text
  pub company_id : Uuid
  pub ecf_type : EcfType
  pub buyer_rnc : Option Text
  -- The eNCF of `reference`, if there is a reference.
  pub reference : Option Text
  pub items : List (ItemInput D)
  pub payment_type : ℕ
  pub term_days : Option ℕ
  pub encf_override : Option ℕ
  -- Whether there is an `emitterOverride`.
  pub emitter_override : Bool

-- The columns that `sequences.service.ts` reads of the two tables.
abbrev pub company_columns : Company → ecf_api.Sequences.Company
company_columns c = record { id = c.id; tenant_id = c.tenant_id; is_active = c.is_active }

abbrev pub invoice_columns : {D : Type 0} → Emitted D → ecf_api.Sequences.Invoice
invoice_columns i = record {
  tenant_id = i.tenant_id;
  company_id = i.company_id;
  ecf_type = i.ecf_type;
  encf = i.encf;
  status = i.status;
}

-- The tables as `sequences.service.ts` sees them, and its writes.
unfoldable pub store_of : {D : Type 0} → Office D → Store
store_of o = record {
  companies = map company_columns o.companies;
  sequences = o.sequences;
  invoices = map invoice_columns o.invoices;
  annulments = o.annulments;
}

abbrev pub with_sequences : {D : Type 0} → Store → Office D → Office D
with_sequences st o = record o { sequences = st.sequences }

abbrev pub with_books : {D : Type 0} → Books → Office D → Office D
with_books b o = record o { books = b }

-- `where: { id: dto.companyId, tenantId, isActive: true }`
abbrev pub is_emitting_company : Uuid → Uuid → Company → Bool
is_emitting_company tenant company c = c.id == company && c.tenant_id == tenant && c.is_active

-- A key that is given and not empty.
abbrev pub given : Option Text → Option Text
given none = none
given (some []) = none
given (some (c ∷ s)) = some (c ∷ s)

abbrev pub has_text : Option Text → Text → Bool
has_text none key = false
has_text (some s) key = text_eq s key

-- `where: { idempotencyKey, tenantId }`
abbrev pub has_idempotency_key : {D : Type 0} → Uuid → Text → Emitted D → Bool
has_idempotency_key tenant key i = i.tenant_id == tenant && has_text i.idempotency_key key

-- The lookup by an idempotency key, if the request has one.
unfoldable pub find_by_key :
    {D : Type 0} → Uuid → Option Text → List (Emitted D) → Option (Emitted D)
find_by_key tenant none rows = none
find_by_key tenant (some key) rows = find_first (has_idempotency_key tenant key) rows

-- `where: { id: invoiceId, tenantId }`
abbrev pub is_invoice : {D : Type 0} → Uuid → Uuid → Emitted D → Bool
is_invoice tenant invoice i = i.id == invoice && i.tenant_id == tenant

abbrev pub is_prod : DgiiEnv → Bool
is_prod prod = true
is_prod _ = false
