-- ===== src/Queue.antt =====
-- The background workers of src/queue: what they read and write of an invoice, and what they ask of
-- the services around them, whose answers are given.
pub mod Polling
pub mod Processing
use ecf_api.Prelude.{ℕ, Bool, true, false, ◌||◌, List, [], ◌∷◌, Option, none, some, ◌==◌}
use ecf_api.Prelude.Text.{Text, codes, starts_with}
use ecf_api.Prelude.Results.{Result, ok, err}
use ecf_api.Types.{
  EcfType, InvoiceStatus, queued, processing, sent, accepted, rejected, conditional, voided,
  contingency, error,
}

-- The columns of `model Invoice` that the workers use.
pub record Invoice : Type 0 where
  pub encf : Text
  pub status : InvoiceStatus
  pub xml_unsigned : Option Text
  pub xml_signed : Option Text
  pub xml_rfce : Option Text
  pub track_id : Option Text
  pub reference_encf : Option Text
  pub is_rfce : Bool
  pub dgii_message : Text

-- A JavaScript error: its `status`, if it has one, else 0, and its message.
pub record Failure : Type 0 where
  pub status : ℕ
  pub message : Text

-- `WebhookEvent`, as far as the workers emit them.
pub data Event : Type 0 where
  submitted_event accepted_event rejected_event conditional_event error_event : Event

-- What a worker asks of the world, newest first.
pub data Effect : Type 0 where
  submit_ecf submit_rfce : Text → Effect
  poll_enqueued : Effect
  webhook : Event → Effect
  refund_requested : Effect
  audited : Text → Effect

pub record World : Type 0 where
  pub invoice : Invoice
  pub log : List Effect

-- A step that may throw; what was written before stays written.
abbrev pub Work : Type 0 → Type 0
Work A = World → Result Failure A × World

infixl 5 ◌>>=◌ ◌>>◌
abbrev pub ◌>>=◌ : {A B : Type 0} → Work A → (A → Work B) → Work B
◌>>=◌ m f w = elim (m w).0 [ ok a ↦ f a (m w).1 | err e ↦ (err e, (m w).1) ]

abbrev pub ◌>>◌ : {B : Type 0} → Work (Unit {0}) → Work B → Work B
m >> k = m >>= λ _. k

abbrev pub pure : {A : Type 0} → A → Work A
pure a w = (ok a, w)

abbrev pub throw : {A : Type 0} → Failure → Work A
throw e w = (err e, w)

-- A call that may throw.
abbrev pub call : {A : Type 0} → Result Failure A → Work A
call r w = (r, w)

-- `prisma.invoice.update`
abbrev pub update : (Invoice → Invoice) → Work (Unit {0})
update f w = (ok tt, record w { invoice = f w.invoice })

abbrev pub note : Effect → Work (Unit {0})
note x w = (ok tt, record w { log = x ∷ w.log })

-- JavaScript's truth of a text that may be null.
abbrev pub truthy : Option Text → Bool
truthy (some (_ ∷ _)) = true
truthy (some []) = false
truthy none = false

-- `text.includes(part)`
abbrev pub contains : Text → Text → Bool
contains part [] = starts_with part []
contains part (c ∷ s) = starts_with part (c ∷ s) || contains part s

-- `mapDgiiStatus`, the same in both workers.
unfoldable pub map_dgii_status : ℕ → InvoiceStatus
map_dgii_status n = elim (n == 1) [
  | true ↦ accepted
  | false ↦ elim (n == 2) [
    | true ↦ rejected
    | false ↦ elim (n == 3) [
      | true ↦ processing
      | false ↦ elim (n == 4) [ true ↦ conditional | false ↦ sent ]
    ]
  ]
]
