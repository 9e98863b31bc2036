-- ===== src/Lib.antt =====
-- Electronic invoicing: the emission of invoices, the registration and assignment of tax numbers, the
-- metering of invoices, the XML of a document, the jobs that submit it to DGII and poll its status, the
-- retry of what could not be sent, the delivery of webhooks, and the check of identification numbers.
--
-- The service takes an invoice, reserves the next number (eNCF) of a range that DGII authorised, counts the
-- invoice against the plan of the company, and queues a job. The job signs the document, validates it,
-- submits it, records the answer, and asks for a refund of the quota if DGII rejects it.
--
-- Parts and files:
--   Types        the enumerations of prisma/schema.prisma that several parts share
--   Encf         src/xml-builder/ecf-types.ts: formatEncf, isValidEncf, getTypeFromEncf, the tests on
--                additional-tax codes; Encf/Format and Encf/Codes hold the theorems
--   Sequences    src/sequences/sequences.service.ts: the table of ranges (`Store`), `create` in
--                Sequences/Create, `getNextEncf` with `assignNextEncf` in Sequences/Assign, `findAll` and
--                `getAvailable` in Sequences/Stats; `annulSequences` in Sequences/Annul, with
--                `getAnnulableEncfs` in Sequences/Annul/Candidates
--   Billing      src/billing/usage.service.ts: `incrementUsage`, `decrementUsage` and `revertUsage` in
--                Billing/Usage, on the tables `Books`; src/billing/company-billing.service.ts in
--                Billing/Plans; src/billing/billing.service.ts and
--                src/billing/guards/active-plan.guard.ts in Billing/Tenants
--   Queue        src/queue/ecf-processing.processor.ts: `process` in Queue/Processing, step by step in the
--                order of its comments 1 to 9; src/queue/status-poll.processor.ts: `process` is `poll` of
--                Queue/Polling, and `run_polls` runs the job again each time that it is delayed
--   Rnc          src/common/services/rnc-validation.service.ts: `validateFormat` and the check digits
--   Amounts      src/xml-builder/itbis.util.ts: the rates and amounts of ITBIS
--   Invoices     src/invoices/invoices.service.ts: `create` in Invoices/Create, over the tables of the
--                ranges, the metering and the invoices; `pollStatus` and `voidInvoice` in
--                Invoices/Status. Invoices/Create/Steps is what may come between two requests
--   Validation   src/validation/validation.service.ts: `validateInvoiceInput` with its checks,
--                `validateCuadratura`, and the selective taxes in Validation/Isc
--   Locks        src/common/services/distributed-lock.service.ts: `acquire`, `release`, `withLock`
--   Auth         src/common/guards/api-key.guard.ts: `canActivate`, which is `authenticate`
--   Contingency  src/contingency/contingency.service.ts: each method under its name; `processQueue` is
--                `process_queue`, over the rows in the order of their creation. Contingency/Updates
--                holds what a run does to the rows, Contingency/Accounts what it counts,
--                Contingency/Sent what it sends to DGII, Contingency/Marked the statistics
--   Xml          src/xml-builder/xml-builder.service.ts: `escapeXml` and the lines of a document in Xml,
--                the sections in Xml/IdDoc, Xml/Parties, Xml/Items, Xml/Totales and Xml/Annexes,
--                `calculateTotals` in Xml/Totals, `buildEcfXml` in Xml/Document,
--                `buildAnecfXml` in Xml/Anecf; Xml/Input is
--                src/xml-builder/invoice-input.interface.ts, Xml/Places the codes of municipalities.
--                Xml/Safe holds the notion of a well-formed document, and the modules Written the
--                lemmas on the sections
--   Webhooks     src/webhooks/webhook-delivery.processor.ts: `process` is `process_delivery`, one attempt of
--                a job, and `run_attempts` its retries
--   Buyers       src/buyers/ecf-type.resolver.ts: `resolveEcfType`
--   Prelude      texts, the numbers of the language, rows of tables, results, transactions and the
--                lemmas on them
--   Tests        runs on small inputs
--
-- State is passed explicitly: a function takes the tables and returns them. A database transaction is a
-- parameter (`Transaction` of Prelude/Results) with the documented behaviour that a body that returns
-- commits and a body that throws leaves the tables as they were. The job takes the answers of the other
-- services as the record `Services`, where an answer `err` is an exception; its writes stay when a later
-- step throws. Texts are lists of character codes.
--
-- Bounds: numbers of ranges are columns of 32 bits, so that a range is below 2 ^ 31 and has ten digits
-- at most; the digits of n are printed with fuel n + 1, which is never used up. The polls of a document
-- are run with fuel 22, which is enough for 20 attempts and a recovered tracking number. Metering
-- counts are natural numbers and stay below their quota.
--
-- The amounts of a document are JavaScript numbers: they are a parameter (`Numbers` of Prelude/Numbers)
-- with the operations of the language, of which nothing is assumed. The printing of
-- numbers and dates is the parameter `Format` of Xml. The store of locks is the parameter
-- `Redis` of Locks, with the documented effect of its commands.
--
-- Not modelled: the reception of documents and the certification; the listing of invoices; the XML of
-- responses; the web interfaces, and everything that is cryptography, PDF, mail or HTTP. The
-- indentation of a document is left out, and an element is one line with its name and its text.
-- Times are numbers. Each call of a service runs alone: locks of rows make the database run the
-- modelled statements one after the other.
pub mod Prelude
pub mod Types
pub mod Encf
pub mod Sequences
pub mod Billing
pub mod Queue
pub mod Rnc
pub mod Amounts
pub mod Invoices
pub mod Validation
pub mod Locks
pub mod Auth
pub mod Contingency
pub mod Xml
pub mod Webhooks
pub mod Buyers
mod Tests
