-- ===== src/Tests.antt =====
-- Runs of the code on small inputs, and the theorems at such inputs.
pub mod Amounts
pub mod Annul
mod Auth
pub mod Billing
mod Contingency
mod Encf
pub mod Invoices
mod Locks
mod Queue
mod Rnc
pub mod Sequences
mod Validation
mod Webhooks
mod Xml
