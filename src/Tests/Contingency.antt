-- ===== src/Tests/Contingency.antt =====
-- The retry of src/contingency/contingency.service.ts at work.
use ecf_api.Prelude.{ℕ, ◌≡◌, ◌≤◌, refl, [], ◌∷◌, none, some, false, length, map, ◌++◌}
use ecf_api.Prelude.Text.{codes}
use ecf_api.Prelude.Results.{ok, err}
use ecf_api.Prelude.Rows.{find_many}
use ecf_api.Types.{contingency}
use ecf_api.Invoices.{Emitted}
use ecf_api.Invoices.Create.{new_invoice}
use ecf_api.Contingency.{RetryServices, Desk, pending, process_batch, process_queue}
use ecf_api.Contingency.Accounts.{IsAccounted, process_queue-accounts}
use ecf_api.Contingency.Sent.{is_resubmitted, process_batch_sent}
use ecf_api.Tests.Invoices.{office, row_20}

-- One that DGII has not seen, and one that it has.
abbrev unsent : Emitted ℕ
unsent = record row_20 { status = contingency; created_at = 0 }

abbrev tracked : Emitted ℕ
tracked = record unsent { id = 21; track_id = some (codes "t") }

abbrev desk : Desk ℕ
desk = record { office = record office { invoices = unsent ∷ tracked ∷ [] }; sent = []; polls = [] }

abbrev retry_services : RetryServices ℕ
retry_services = record {
  first_token = λ _. ok tt;
  token = λ _. ok tt;
  query_status = λ _. ok (record { status = 1; message = none });
  sign_xml = λ _. ok (codes "s");
  submit_ecf = λ _ _. err (codes "down");
  submit_rfce = λ _ _. err (codes "down");
  enqueue_poll = λ _. ok tt;
  refunds = false;
  is_below_threshold = λ _. false;
}

process_queue-accounts_example :
    IsAccounted none
      (pending none desk.office)
      desk.office.invoices
      (process_queue retry_services 5 none desk)
    × (length (pending none desk.office) ≤ 10)
unfolding new_invoice
process_queue-accounts_example =
    process_queue-accounts retry_services 5 none desk ((refl, tt), (tt, tt)) (λ _. refl)

process_batch_sent_example :
    (process_batch retry_services 5 (unsent ∷ tracked ∷ []) desk).1.sent
    ≡ [] ++ map (λ i. i.id) (find_many (is_resubmitted retry_services 5) (unsent ∷ tracked ∷ []))
process_batch_sent_example = process_batch_sent retry_services 5 (unsent ∷ tracked ∷ []) desk

-- Only the first is sent.
sent_once : find_many (is_resubmitted retry_services 5) (unsent ∷ tracked ∷ []) ≡ unsent ∷ []
unfolding new_invoice
sent_once = refl
