-- ===== src/Sequences/Stats.antt =====
-- The read-only answers of src/sequences/sequences.service.ts: `findAll` and `getAvailable`.
use ecf_api.Prelude.{ℕ, ◌+◌, Option, none, some}
use ecf_api.Prelude.Int.{ℤ, sub_ℕ}
use ecf_api.Prelude.Text.{Text}
use ecf_api.Types.{Uuid, Time, EcfType}
use ecf_api.Prelude.Rows.{find_first}
use ecf_api.Sequences.{Sequence, Store, is_active_for, encf_of}

-- What `findAll` adds to a row. `percent used total` is `Math.round((used / total) * 100)`.
pub record Stats : Type 0 where
  pub used : ℤ
  pub remaining : ℤ
  pub total : ℤ
  pub percent_used : ℤ

unfoldable pub sequence_stats : (ℤ → ℤ → ℤ) → Sequence → Stats
sequence_stats percent s =
    let used = sub_ℕ (s.current_number + 1) s.start_number in
    let total = sub_ℕ (s.end_number + 1) s.start_number in
    record {
      used = used;
      remaining = sub_ℕ s.end_number s.current_number;
      total = total;
      percent_used = percent used total;
    }

-- The answer of `getAvailable` when there is an active sequence.
pub record Available : Type 0 where
  pub remaining : ℤ
  pub next_number : ℕ
  pub next_encf : Text
  pub expires_at : Option Time

-- `getAvailable`
unfoldable pub get_available : Uuid → Uuid → EcfType → Store → Option Available
get_available tenant company ecf_type st =
    elim (find_first (is_active_for tenant company ecf_type) st.sequences) [
      | none ↦ none
      | some s ↦ some (record {
        remaining = sub_ℕ s.end_number s.current_number;
        next_number = s.current_number + 1;
        next_encf = encf_of s (s.current_number + 1);
        expires_at = s.expires_at;
      })
    ]
