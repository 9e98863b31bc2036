-- ===== src/Sequences/Invariant/Update.antt =====
-- A write to one row of a valid table.
use ecf_api.Prelude.{
  ℕ, ◌≡◌, ◌≢◌, refl, sym, ◌∙◌, ◌⊎◌, inl, inr, List, [], ◌∷◌, arith, ◌==◌, if◌then◌else◌,
}
use mathlib.Core.Path.{subst}
use ecf_api.Prelude.Rows.{All, Has}
use ecf_api.Prelude.Rows.Laws.{All-Has, All-map}
use ecf_api.Sequences.{Sequence, update_row}
use ecf_api.Sequences.Invariant.{IsSound, Apart, IsValid, Narrows}

-- No row has the key: nothing is written.
update_row-absent :
    (k : ℕ) (f : Sequence → Sequence) (rows : List Sequence)
    → All (λ t. t.id ≢ k) rows
    → update_row k f rows ≡ rows
update_row-absent k f [] h = refl
update_row-absent k f (t ∷ rows) h = ground (arith, update_row-absent k f rows h.1)

module _ (f : Sequence → Sequence) (s : Sequence) where
  update_row-head :
      (rows : List Sequence) → All (Apart s) rows → update_row s.id f (s ∷ rows) ≡ f s ∷ rows
  update_row-head rows apart =
      let absent =
        update_row-absent s.id f rows
          (All-map (Apart s) (λ t. t.id ≢ s.id) rows (λ t a e. a.distinct (sym e)) apart) in
      ground (arith, absent)

  update_row-tail :
      (t : Sequence) (rows : List Sequence)
      → Apart t s
      → update_row s.id f (t ∷ rows) ≡ t ∷ update_row s.id f rows
  update_row-tail t rows a = ground (arith, a.distinct)

  -- The table after the write, by where the row stands.
  at_head :
      (t : Sequence) (rows : List Sequence)
      → t ≡ s
      → All (Apart t) rows
      → update_row s.id f (t ∷ rows) ≡ f s ∷ rows
  at_head t rows e apart =
      subst (λ z. update_row s.id f (z ∷ rows) ≡ f s ∷ rows) (sym e)
        (update_row-head rows (subst (λ z. All (Apart z) rows) e apart))

  -- What holds of every row, and of the new one, holds of every row after the write.
  pub All-update_row {ℓ} :
      (P : Sequence → Type ℓ) (rows : List Sequence)
      → IsValid rows
      → Has s rows
      → All P rows
      → P (f s)
      → All P (update_row s.id f rows)
  All-update_row P [] v m h new = tt
  All-update_row P (t ∷ rows) v (inl e) h new =
      subst (All P) (sym (at_head t rows e v.1)) (new, h.1)
  All-update_row P (t ∷ rows) v (inr m) h new =
      subst (All P) (sym (update_row-tail t rows (All-Has (Apart t) s rows v.1 m)))
        (h.0, All-update_row P rows v.2 m h.1 new)

  -- The new row is in the table.
  pub Has-update_row :
      (rows : List Sequence) → IsValid rows → Has s rows → Has (f s) (update_row s.id f rows)
  Has-update_row [] v m = m
  Has-update_row (t ∷ rows) v (inl e) = subst (Has (f s)) (sym (at_head t rows e v.1)) (inl refl)
  Has-update_row (t ∷ rows) v (inr m) =
      subst (Has (f s)) (sym (update_row-tail t rows (All-Has (Apart t) s rows v.1 m)))
        (inr (Has-update_row rows v.2 m))

  -- A row with another key stays.
  pub Has-update_row_ne :
      (rows : List Sequence) (t : Sequence)
      → t.id ≢ s.id
      → Has t rows
      → Has t (update_row s.id f rows)
  Has-update_row_ne [] t ne m = m
  Has-update_row_ne (r ∷ rows) t ne (inl e) =
      inl (subst (λ z. (if z.id == s.id then f z else z) ≡ t) (sym e) (ground arith))
  Has-update_row_ne (r ∷ rows) t ne (inr m) = inr (Has-update_row_ne rows t ne m)

Apart-Narrows : (r s s' : Sequence) → Narrows s s' → Apart r s → Apart r s'
Apart-Narrows r s s' n a = ground arith

Apart-Narrows_left : (r s s' : Sequence) → Narrows s s' → Apart s r → Apart s' r
Apart-Narrows_left r s s' n a = ground arith

-- A write that keeps its row sound, and narrows it, keeps the table valid.
pub update_row-IsValid :
    (f : Sequence → Sequence) (s : Sequence) (rows : List Sequence)
    → IsValid rows
    → Has s rows
    → IsSound (f s)
    → Narrows s (f s)
    → IsValid (update_row s.id f rows)
update_row-IsValid f s [] v m sound n = tt
update_row-IsValid f s (t ∷ rows) v (inl e) sound n =
    subst IsValid (sym (at_head f s t rows e v.1)) (
      sound,
      All-map (Apart t) (Apart (f s)) rows
          (λ r a. Apart-Narrows_left r s (f s) n (subst (λ z. Apart z r) e a)) v.1,
      v.2,
    )
update_row-IsValid f s (t ∷ rows) v (inr m) sound n =
    subst IsValid (sym (update_row-tail f s t rows (All-Has (Apart t) s rows v.1 m))) (
      v.0,
      All-update_row f s (Apart t) rows v.2 m v.1
          (Apart-Narrows t s (f s) n (All-Has (Apart t) s rows v.1 m)),
      update_row-IsValid f s rows v.2 m sound n,
    )

pub IsSound-of_Has : (s : Sequence) (rows : List Sequence) → IsValid rows → Has s rows → IsSound s
IsSound-of_Has s [] v m = elim m [ ]
IsSound-of_Has s (t ∷ rows) v (inl e) = subst IsSound e v.0
IsSound-of_Has s (t ∷ rows) v (inr m) = IsSound-of_Has s rows v.2 m

-- Two rows of a valid table are one row, or apart.
pub two_rows :
    (s r : Sequence) (rows : List Sequence)
    → IsValid rows
    → Has s rows
    → Has r rows
    → (r ≡ s) ⊎ (Apart s r ⊎ Apart r s)
two_rows s r [] v m k = elim m [ ]
two_rows s r (t ∷ rows) v (inl e) (inl f) = inl (sym f ∙ e)
two_rows s r (t ∷ rows) v (inl e) (inr k) =
    inr (inl (subst (λ z. Apart z r) e (All-Has (Apart t) r rows v.1 k)))
two_rows s r (t ∷ rows) v (inr m) (inl f) =
    inr (inr (subst (λ z. Apart z s) f (All-Has (Apart t) s rows v.1 m)))
two_rows s r (t ∷ rows) v (inr m) (inr k) = two_rows s r rows v.2 m k
