-- ===== src/Xml.antt =====
-- The documents of src/xml-builder/xml-builder.service.ts: `escapeXml`, the lines of a document, and the
-- ways in which the sections add a line.
pub mod Escape
pub mod Safe
pub mod Places
pub mod Parties
pub mod Input
pub mod IdDoc
pub mod Annexes
pub mod Totals
pub mod Document
pub mod Anecf
pub mod Items
pub mod Totales
use ecf_api.Prelude.{
  ℕ, Bool, true, false, ◌&&◌, ◌||◌, not, List, [], ◌∷◌, ◌++◌, Option, none, some, leb, ◌==◌,
  if◌then◌else◌,
}
use ecf_api.Prelude.Text.{Text, codes}
use ecf_api.Prelude.Numbers.{Numbers}
use ecf_api.Prelude.Rows.{find_many}
use ecf_api.Types.{Time}
use ecf_api.Invoices.{given}

-- `[\x00-\x08\x0B\x0C\x0E-\x1F]`
abbrev pub is_invalid : ℕ → Bool
is_invalid c = leb c 8 || (c == 11) || (c == 12) || (leb 14 c && leb c 31)

-- `s.replace(/[…]/g, '')`
abbrev pub strip_invalid : Text → Text
strip_invalid s = find_many (λ c. not (is_invalid c)) s

-- `s.replace(/c/g, t)`
abbrev pub replace_code : ℕ → Text → Text → Text
replace_code c t [] = []
replace_code c t (d ∷ s) = (if d == c then t else d ∷ []) ++ replace_code c t s

-- `escapeXml`
unfoldable pub escape_xml : Text → Text
escape_xml s =
    let stripped = strip_invalid s in
    let ampersands = replace_code b'&' (codes "&amp;") stripped in
    let opened = replace_code b'<' (codes "&lt;") ampersands in
    let closed = replace_code b'>' (codes "&gt;") opened in
    let quoted = replace_code b'"' (codes "&#34;") closed in
    let apostrophes = replace_code 39 (codes "&#39;") quoted in
    let tabs = replace_code 9 (codes "&#9;") apostrophes in
    let lines = replace_code 10 (codes "&#10;") tabs in replace_code 13 (codes "&#13;") lines

-- A line of a document: an element with its text, or a tag around a group; indentation is left out.
pub data Line : Type 0 where
  element : Text → Text → Line
  open_tag close_tag : Text → Line

-- An element whose text is escaped, and one whose text is written as it is.
unfoldable pub text_line : Text → Text → List Line
text_line name v = element name (escape_xml v) ∷ []

unfoldable pub raw_line : Text → Text → List Line
raw_line name v = element name v ∷ []

-- `if (v) …`, for a text
unfoldable pub text_field : Text → Option Text → List Line
text_field name v = elim (given v) [ none ↦ [] | some s ↦ element name (escape_xml s) ∷ [] ]

unfoldable pub raw_field : Text → Option Text → List Line
raw_field name v = elim (given v) [ none ↦ [] | some s ↦ element name s ∷ [] ]

-- `if (b) …`
unfoldable pub only_if : Bool → List Line → List Line
only_if b lines = if b then lines else []

-- `a || b`, for texts
unfoldable pub text_or : Option Text → Text → Text
text_or v t = elim (given v) [ none ↦ t | some s ↦ s ]

-- `raw ?? t`
abbrev pub raw_or : Option Text → Text → Text
raw_or none t = t
raw_or (some s) t = s

-- A section for each row of a table.
unfoldable pub for_each : {A : Type 0} → (A → List Line) → List A → List Line
for_each f [] = []
for_each f (x ∷ xs) = f x ++ for_each f xs

-- How the program prints numbers and times: `formatAmount`, `formatPrice` (which is `formatExchangeRate`),
-- `formatSubQuantity` and `formatDate`, which end in the language's `toFixed` and `Intl`, and `String(x)`.
pub record Format (D : Type 0) : Type 0 where
  pub amount : D → Text
  pub price : D → Text
  pub sub_quantity : D → Text
  pub number : D → Text
  pub date : Time → Text

module _ (n : Numbers) (f : Format n.Double) where
  open n use {Double, of_nat, lt, truthy}

  -- `if (x) …` and `if (x != null && x > 0) …`, for a number that is printed with two decimals
  unfoldable pub truthy_field : Text → Option Double → List Line
  truthy_field name none = []
  truthy_field name (some x) = if truthy x then element name (f.amount x) ∷ [] else []

  unfoldable pub positive_field : Text → Option Double → List Line
  positive_field name none = []
  positive_field name (some x) = if lt (of_nat 0) x then element name (f.amount x) ∷ [] else []

  -- `if (x !== undefined) …`
  unfoldable pub amount_field : Text → Option Double → List Line
  amount_field name none = []
  amount_field name (some x) = element name (f.amount x) ∷ []

  -- `if (x) …`, for a number that is printed as it is
  unfoldable pub number_field : Text → Option Double → List Line
  number_field name none = []
  number_field name (some x) = if truthy x then element name (f.number x) ∷ [] else []
