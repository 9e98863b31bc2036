-- ===== src/Sequences/Annul/Candidates.antt =====
-- `getAnnulableEncfs` of src/sequences/sequences.service.ts.
use ecf_api.Prelude.{
  ℕ, zero, suc, ◌+◌, ◌-◌, ◌≤◌, ◌<◌, ◌≡◌, refl, sym, ap, ◌↔◌, inl, inr, Bool, true, false, ◌&&◌,
  ◌||◌, not, List, [], ◌∷◌, Option, none, some, arith, ltb, leb, ◌==◌, map, if◌then◌else◌,
  Bool-cases, if_rule, ==_iff,
}
use mathlib.Core.Path.{subst}
use ecf_api.Prelude.Text.{Text, text_eq}
use ecf_api.Prelude.Rows.{Has, find_many}
use ecf_api.Types.{Uuid, EcfType, type_eq}
use ecf_api.Sequences.{Sequence, Invoice, Store, encf_of}
use ecf_api.Sequences.Annul.{is_annullable}

-- An element of the result.
pub record Candidates : Type 0 where
  pub ecf_type : EcfType
  pub rejected : List Text
  pub gaps : List Text

-- The rows of one company, and of the type if one is asked for.
abbrev pub is_listed : Uuid → Uuid → Option EcfType → Sequence → Bool
is_listed tenant company none s = s.tenant_id == tenant && s.company_id == company && s.is_active
is_listed tenant company (some t) s =
    s.tenant_id == tenant && s.company_id == company && s.is_active && type_eq s.ecf_type t

abbrev pub is_invoice_of : Uuid → Uuid → EcfType → Invoice → Bool
is_invoice_of tenant company t i =
    i.tenant_id == tenant && i.company_id == company && type_eq i.ecf_type t

-- `map((f) => f.encf).filter((e) => !!e)`
unfoldable pub present_encfs : List Invoice → List Text
present_encfs [] = []
present_encfs (i ∷ rows) =
    let rest = present_encfs rows in
    elim i.encf [ none ↦ rest | some [] ↦ rest | some (c ∷ e) ↦ (c ∷ e) ∷ rest ]

-- `used.has(encf)`, for a set of texts that may hold null.
unfoldable pub is_used : Text → List Invoice → Bool
is_used encf [] = false
is_used encf (i ∷ rows) =
    elim i.encf [ none ↦ false | some e ↦ text_eq e encf ] || is_used encf rows

-- The loop over the numbers from `n`, of which `left` are to do.
unfoldable pub gaps_from : Sequence → List Invoice → ℕ → ℕ → List Text
gaps_from s rows n zero = []
gaps_from s rows n (suc left) =
    let rest = gaps_from s rows (n + 1) left in
    if not (is_used (encf_of s n) rows) then encf_of s n ∷ rest else rest

-- The gaps of a row, unless its span is empty or above 100 000.
unfoldable pub gaps_of : Sequence → List Invoice → List Text
gaps_of s rows =
    let span = (s.current_number + 1) - s.start_number in
    if ltb 0 span && leb span 100000 then gaps_from s rows s.start_number span else []

unfoldable pub candidates_of : Uuid → Uuid → Store → Sequence → Candidates
candidates_of tenant company st s = record {
  ecf_type = s.ecf_type;
  rejected = present_encfs (
      find_many (λ i. is_invoice_of tenant company s.ecf_type i && is_annullable i.status)
        st.invoices);
  gaps = gaps_of s (find_many (is_invoice_of tenant company s.ecf_type) st.invoices);
}

unfoldable pub get_annulable_encfs : Uuid → Uuid → Option EcfType → Store → List Candidates
get_annulable_encfs tenant company t st =
    map (candidates_of tenant company st) (find_many (is_listed tenant company t) st.sequences)

-- A gap is the eNCF of a counted number that no invoice carries.
abbrev pub IsGap : Sequence → List Invoice → ℕ → ℕ → Text → Type 0
IsGap s rows low high e =
    (k : ℕ) × (low ≤ k) × (k < high) × (e ≡ encf_of s k) × (is_used e rows ≡ false)

gaps_from_sound :
    (s : Sequence) (rows : List Invoice) (n left : ℕ) (e : Text)
    → Has e (gaps_from s rows n left)
    → IsGap s rows n (n + left) e
unfolding gaps_from
gaps_from_sound s rows n zero e h = elim h [ ]
gaps_from_sound s rows n (suc left) e h =
    go (is_used (encf_of s n) rows) refl h (gaps_from_sound s rows (n + 1) left e)
  where
    go :
        (b : Bool)
        → is_used (encf_of s n) rows ≡ b
        → Has e (
            if not b
            then encf_of s n ∷ gaps_from s rows (n + 1) left
            else gaps_from s rows (n + 1) left)
        → (Has e (gaps_from s rows (n + 1) left) → IsGap s rows (n + 1) (n + 1 + left) e)
        → IsGap s rows n (n + suc left) e
    go true u m ih =
        let (k, low, high, same, free) = ih m in (k, omega arith, omega arith, same, free)
    go false u (inl here) ih =
        (n, omega arith, omega arith, sym here, subst (λ z. is_used z rows ≡ false) here u)
    go false u (inr m) ih =
        let (k, low, high, same, free) = ih m in (k, omega arith, omega arith, same, free)

gaps_from_complete :
    (s : Sequence) (rows : List Invoice) (n left k : ℕ)
    → n ≤ k
    → k < n + left
    → is_used (encf_of s k) rows ≡ false
    → Has (encf_of s k) (gaps_from s rows n left)
unfolding gaps_from
gaps_from_complete s rows n zero k low high free = absurd (omega arith)
gaps_from_complete s rows n (suc left) k low high free = elim (Bool-cases (n == k)) [
  | inl here ↦
      let e : n ≡ k = (==_iff n k).0 here in
      let unused : is_used (encf_of s n) rows ≡ false =
        subst (λ z. is_used (encf_of s z) rows ≡ false) (sym e) free in
      rw unused (inl (ap (encf_of s) e))
  | inr later ↦
      let rest = gaps_from_complete s rows (n + 1) left k (ground arith) (omega arith) free in
      if_rule (Has (encf_of s k)) (not (is_used (encf_of s n) rows)) (λ _. inr rest) (λ _. rest)
]

-- For a row with 1 to 100 000 counted numbers, the gaps are exactly the eNCFs of the counted numbers
-- that no invoice of its type carries.
pub gaps_of-exact :
    (s : Sequence) (rows : List Invoice) (e : Text)
    → s.start_number ≤ s.current_number
    → s.current_number < s.start_number + 100000
    → Has e (gaps_of s rows) ↔ IsGap s rows s.start_number (s.current_number + 1) e
unfolding gaps_of
gaps_of-exact s rows e some_used bounded =
    let span = (s.current_number + 1) - s.start_number in
    let inside : (ltb 0 span && leb span 100000) ≡ true = ground arith in
    let total : s.start_number + span ≡ s.current_number + 1 = omega arith in
    rw inside (
      λ h.
          subst (λ z. IsGap s rows s.start_number z e) total
            (gaps_from_sound s rows s.start_number span e h),
      λ (g : IsGap s rows s.start_number (s.current_number + 1) e).
          subst (λ z. Has z (gaps_from s rows s.start_number span)) (sym g.3)
            (gaps_from_complete s rows s.start_number span g.0 g.1 (omega (arith, g.2, total))
              (subst (λ z. is_used z rows ≡ false) g.3 g.4)),
    )
