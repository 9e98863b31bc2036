-- ===== src/Xml/Escape.antt =====
-- What `escapeXml` of src/xml-builder/xml-builder.service.ts makes of a text, read back as XML.
use ecf_api.Prelude.{
  ℕ, Bool, true, false, ◌&&◌, ◌||◌, ◌≡◌, refl, sym, ap, ◌∙◌, inl, inr, [], ◌∷◌, ◌++◌, Option, none,
  some, leb, ◌==◌, if◌then◌else◌, arith, Bool-cases,
}
use mathlib.Core.List.{append_assoc}
use mathlib.Core.Path.{subst}
use ecf_api.Prelude.Text.{Text, codes, text_eq}
use ecf_api.Prelude.Rows.{All}
use ecf_api.Prelude.Rows.Laws.{All-append}
use ecf_api.Xml.{is_invalid, strip_invalid, replace_code, escape_xml}

-- The character that a reference stands for.
abbrev pub reference : Text → Text
reference r =
    if text_eq r (codes "amp")
    then b'&' ∷ []
    else if text_eq r (codes "lt")
    then b'<' ∷ []
    else if text_eq r (codes "gt")
    then b'>' ∷ []
    else if text_eq r (codes "#34")
    then b'"' ∷ []
    else if text_eq r (codes "#39")
    then 39 ∷ []
    else if text_eq r (codes "#9")
    then 9 ∷ []
    else if text_eq r (codes "#10")
    then 10 ∷ []
    else if text_eq r (codes "#13")
    then 13 ∷ []
    else []

-- One character of the text of an element: what it adds, and the reference that is open after it.
abbrev pub read_code : Option Text → ℕ → Text × Option Text
read_code none c = if c == b'&' then ([], some []) else (c ∷ [], none)
read_code (some r) c = if c == b';' then (reference r, none) else ([], some (r ++ c ∷ []))

-- The text that a reader of XML sees.
unfoldable pub unescape : Option Text → Text → Text
unescape r [] = []
unescape r (c ∷ s) = let (out, next) = read_code r c in out ++ unescape next s

-- A character that ends or breaks the text of an element or of an attribute.
abbrev pub is_markup : ℕ → Bool
is_markup c = c == b'<' || (c == b'>') || (c == b'"') || (c == 39) || (leb c 31)

abbrev has_none : Text → Bool
has_none [] = true
has_none (c ∷ s) = false

-- Every `&` begins one of the references, and it is closed; `r` is what is read of an open one.
abbrev pub closes_references : Option Text → Text → Bool
closes_references none [] = true
closes_references (some r) [] = false
closes_references none (c ∷ s) = closes_references (if c == b'&' then some [] else none) s
closes_references (some r) (c ∷ s) =
    let rest = closes_references (if c == b';' then none else some (r ++ c ∷ [])) s in
    if c == b';' && has_none (reference r) then false else rest

abbrev pub IsPlain : Text → Type 0
IsPlain s = All (λ c. is_markup c ≡ false) s × (closes_references none s ≡ true)

closes_references-append :
    (r : Option Text) (s t : Text)
    → closes_references r s ≡ true
    → closes_references none t ≡ true
    → closes_references r (s ++ t) ≡ true
closes_references-append none [] t h k = k
closes_references-append (some r) [] t h k = cc
closes_references-append none (c ∷ s) t h k =
    closes_references-append (if c == b'&' then some [] else none) s t h k
closes_references-append (some r) (c ∷ s) t h k =
    elim (Bool-cases (c == b';' && has_none (reference r))) [
      | inl unknown ↦ let clash : false ≡ true = rw unknown at h in cc
      | inr known ↦ rw known (
          closes_references-append (if c == b';' then none else some (r ++ c ∷ [])) s t
            (rw known at h) k)
    ]

pub IsPlain-append : (s t : Text) → IsPlain s → IsPlain t → IsPlain (s ++ t)
IsPlain-append s t h k =
    (All-append (λ c. is_markup c ≡ false) s t h.0 k.0, closes_references-append none s t h.1 k.1)

pub IsPlain-nil : IsPlain []
IsPlain-nil = (tt, refl)

pub IsPlain-cons :
    (c : ℕ) (s : Text) → is_markup c ≡ false → (c == b'&') ≡ false → IsPlain s → IsPlain (c ∷ s)
IsPlain-cons c s plain other h = ((plain, h.0), rw (other, closes_references) h.1)

-- `escapeXml` of one character.
abbrev escape_code : ℕ → Text
escape_code c =
    if is_invalid c
    then []
    else if c == b'&'
    then codes "&amp;"
    else if c == b'<'
    then codes "&lt;"
    else if c == b'>'
    then codes "&gt;"
    else if c == b'"'
    then codes "&#34;"
    else if c == 39
    then codes "&#39;"
    else if c == 9
    then codes "&#9;"
    else if c == 10
    then codes "&#10;"
    else if c == 13
    then codes "&#13;"
    else c ∷ []

replace_code-append :
    (c : ℕ) (t s u : Text) → replace_code c t (s ++ u) ≡ replace_code c t s ++ replace_code c t u
replace_code-append c t [] u = refl
replace_code-append c t (d ∷ s) u =
    ap (λ l. (if d == c then t else d ∷ []) ++ l) (replace_code-append c t s u)
    ∙ sym (append_assoc (if d == c then t else d ∷ []) (replace_code c t s) (replace_code c t u))

strip_invalid-append : (s u : Text) → strip_invalid (s ++ u) ≡ strip_invalid s ++ strip_invalid u
strip_invalid-append [] u = refl
strip_invalid-append (d ∷ s) u = elim (Bool-cases (is_invalid d)) [
  | inl bad ↦ rw bad (strip_invalid-append s u)
  | inr good ↦ rw good (ap (λ l. d ∷ l) (strip_invalid-append s u))
]

escape_xml-append : (s u : Text) → escape_xml (s ++ u) ≡ escape_xml s ++ escape_xml u
unfolding escape_xml
escape_xml-append s u = simp (strip_invalid-append, replace_code-append)

one_code : (c : ℕ) → escape_xml (c ∷ []) ≡ escape_code c
unfolding escape_xml
one_code c = ground arith

read_one :
    (c : ℕ) (t : Text)
    → unescape none (escape_code c ++ t) ≡ strip_invalid (c ∷ []) ++ unescape none t
unfolding unescape
read_one c t = ground arith

code_plain : (c : ℕ) → All (λ d. is_markup d ≡ false) (escape_code c)
code_plain c = ground arith

code_closes : (c : ℕ) → closes_references none (escape_code c) ≡ true
code_closes c = ground arith

IsPlain-code : (c : ℕ) → IsPlain (escape_code c)
IsPlain-code c = (code_plain c, code_closes c)

escape_xml-cons : (c : ℕ) (s : Text) → escape_xml (c ∷ s) ≡ escape_code c ++ escape_xml s
escape_xml-cons c s = escape_xml-append (c ∷ []) s ∙ ap (λ l. l ++ escape_xml s) (one_code c)

escape_xml_nil : escape_xml [] ≡ []
unfolding escape_xml
escape_xml_nil = refl

unescape_nil : unescape none [] ≡ []
unfolding unescape
unescape_nil = refl

pub escape_xml-IsPlain : (s : Text) → IsPlain (escape_xml s)
escape_xml-IsPlain [] = subst IsPlain (sym escape_xml_nil) IsPlain-nil
escape_xml-IsPlain (c ∷ s) =
    subst IsPlain (sym (escape_xml-cons c s))
      (IsPlain-append (escape_code c) (escape_xml s) (IsPlain-code c) (escape_xml-IsPlain s))

-- Any text that is escaped holds none of the characters `<`, `>`, `"`, `'` and no control character, every
-- `&` in it begins one of the references that the escaping writes, closed by `;`, and a reader that resolves the references of XML gets the text back, less the control characters that XML
-- does not allow.
pub unescape-escape_xml :
    (s : Text) → IsPlain (escape_xml s) × (unescape none (escape_xml s) ≡ strip_invalid s)
unescape-escape_xml s = (escape_xml-IsPlain s, read_all s)
  where
    read_all : (s : Text) → unescape none (escape_xml s) ≡ strip_invalid s
    read_all [] = ap (unescape none) escape_xml_nil ∙ unescape_nil
    read_all (c ∷ s) =
        ap (unescape none) (escape_xml-cons c s)
        ∙ read_one c (escape_xml s)
        ∙ ap (λ l. strip_invalid (c ∷ []) ++ l) (read_all s)
        ∙ sym (strip_invalid-append (c ∷ []) s)
