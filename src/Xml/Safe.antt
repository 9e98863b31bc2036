-- ===== src/Xml/Safe.antt =====
-- Documents that close the groups that they open and whose texts are plain.
use ecf_api.Prelude.{
  ℕ, Bool, true, false, ◌≡◌, refl, ap, ◌∙◌, inl, inr, List, [], ◌∷◌, ◌++◌, Option, none, some,
  Bool-cases, Option-cases, arith, if_rule, ltb, ◌==◌, ◌/◌, ◌%◌, ◌+◌, ◌-◌, zero, suc, replicate,
  length,
}
use mathlib.Core.Path.{subst}
use ecf_api.Prelude.Text.{Text, text_eq, digits_from, to_string, pad_start}
use ecf_api.Prelude.Text.Laws.{text_eq_iff}
use ecf_api.Prelude.Numbers.{Numbers}
use ecf_api.Prelude.Rows.{All}
use ecf_api.Prelude.Rows.Laws.{All-append}
use ecf_api.Types.{Time}
use ecf_api.Invoices.{given}
use ecf_api.Xml.{
  Line, element, open_tag, close_tag, escape_xml, text_line, raw_line, text_field, raw_field,
  only_if, text_or, raw_or, for_each, Format, truthy_field, positive_field, amount_field,
  number_field,
}
use ecf_api.Xml.Escape.{
  IsPlain, is_markup, escape_xml-IsPlain, IsPlain-append, IsPlain-nil, IsPlain-cons,
}

-- The groups that are open after some lines, if every tag closes the group opened last.
abbrev pub read_tags : List Text → List Line → Option (List Text)
read_tags opened [] = some opened
read_tags opened (element _ _ ∷ lines) = read_tags opened lines
read_tags opened (open_tag name ∷ lines) = read_tags (name ∷ opened) lines
read_tags [] (close_tag name ∷ lines) = none
read_tags (last ∷ opened) (close_tag name ∷ lines) = elim (text_eq last name) [
  | true ↦ read_tags opened lines
  | false ↦ none
]

abbrev pub IsPlainLine : Line → Type 0
IsPlainLine (element _ v) = IsPlain v
IsPlainLine (open_tag _) = Unit
IsPlainLine (close_tag _) = Unit

-- The lines close what they open, in order, and the text of every element is plain.
abbrev pub IsWellFormed : List Line → Type 0
IsWellFormed lines = (read_tags [] lines ≡ some []) × All IsPlainLine lines

-- The same inside any open groups.
pub record IsSafe (lines : List Line) : Type 0 where
  pub closes : (opened : List Text) → read_tags opened lines ≡ some opened
  pub plain : All IsPlainLine lines

read_tags-append :
    (opened : List Text) (xs ys : List Line) (after : List Text)
    → read_tags opened xs ≡ some after
    → read_tags opened (xs ++ ys) ≡ read_tags after ys
read_tags-append opened [] ys after h =
    let same : opened ≡ after = cc in ap (λ o. read_tags o ys) same
read_tags-append opened (element _ _ ∷ xs) ys after h = read_tags-append opened xs ys after h
read_tags-append opened (open_tag name ∷ xs) ys after h =
    read_tags-append (name ∷ opened) xs ys after h
read_tags-append [] (close_tag name ∷ xs) ys after h = cc
read_tags-append (last ∷ opened) (close_tag name ∷ xs) ys after h =
    elim (Bool-cases (text_eq last name)) [
      | inl same ↦
          rw (same, read_tags) (read_tags-append opened xs ys after (rw (same, read_tags) at h))
      | inr other ↦ let clash : none ≡ some after = rw (other, read_tags) at h in cc clash
    ]

pub IsSafe-nil : IsSafe []
IsSafe-nil = record { closes = λ opened. refl; plain = tt }

pub IsSafe-append : (xs ys : List Line) → IsSafe xs → IsSafe ys → IsSafe (xs ++ ys)
IsSafe-append xs ys h k = record {
  closes = λ opened. read_tags-append opened xs ys opened (h.closes opened) ∙ k.closes opened;
  plain = All-append IsPlainLine xs ys h.plain k.plain;
}

IsSafe-element : (name v : Text) → IsPlain v → IsSafe (element name v ∷ [])
IsSafe-element name v h = record { closes = λ opened. refl; plain = (h, tt) }

pub IsSafe-raw_line : (name v : Text) → IsPlain v → IsSafe (raw_line name v)
unfolding raw_line
IsSafe-raw_line name v h = IsSafe-element name v h

pub IsSafe-text_line : (name v : Text) → IsSafe (text_line name v)
unfolding text_line
IsSafe-text_line name v = IsSafe-element name (escape_xml v) (escape_xml-IsPlain v)

pub IsSafe-text_field : (name : Text) (v : Option Text) → IsSafe (text_field name v)
unfolding text_field
IsSafe-text_field name v = elim (Option-cases (given v)) [
  | inl absent ↦ rw (absent, text_field) IsSafe-nil
  | inr (s, there) ↦
      rw (there, text_field) (IsSafe-element name (escape_xml s) (escape_xml-IsPlain s))
]

pub IsSafe-only_if : (b : Bool) (lines : List Line) → IsSafe lines → IsSafe (only_if b lines)
unfolding only_if
IsSafe-only_if true lines h = h
IsSafe-only_if false lines h = IsSafe-nil

text_eq_self : (s : Text) → text_eq s s ≡ true
text_eq_self s = (text_eq_iff s s).1 refl

closed :
    (name : Text) (opened : List Text)
    → read_tags (name ∷ opened) (close_tag name ∷ []) ≡ some opened
closed name opened = rw (text_eq_self name, read_tags) refl

pub IsSafe-open_tag :
    (name : Text) (lines : List Line)
    → IsSafe lines
    → IsSafe ((open_tag name ∷ (lines ++ close_tag name ∷ [])))
IsSafe-open_tag name lines h = record {
  closes = λ opened.
      read_tags-append (name ∷ opened) lines (close_tag name ∷ []) (name ∷ opened)
        (h.closes (name ∷ opened))
      ∙ closed name opened;
  plain = (tt, All-append IsPlainLine lines (close_tag name ∷ []) h.plain (tt, tt));
}

pub IsSafe-for_each :
    {A : Type 0} (f : A → List Line) (xs : List A)
    → ((x : A) → IsSafe (f x))
    → IsSafe (for_each f xs)
unfolding for_each
IsSafe-for_each f [] h = IsSafe-nil
IsSafe-for_each f (x ∷ xs) h = IsSafe-append (f x) (for_each f xs) (h x) (IsSafe-for_each f xs h)

pub IsSafe-for-All :
    {A : Type 0} (f : A → List Line) (P : A → Type 0) (xs : List A)
    → ((x : A) → P x → IsSafe (f x))
    → All P xs
    → IsSafe (for_each f xs)
unfolding for_each
IsSafe-for-All f P [] h k = IsSafe-nil
IsSafe-for-All f P (x ∷ xs) h k =
    IsSafe-append (f x) (for_each f xs) (h x k.0) (IsSafe-for-All f P xs h k.1)

pub IsSafe-WellFormed : (lines : List Line) → IsSafe lines → IsWellFormed lines
IsSafe-WellFormed lines h = (h.closes [], h.plain)

-- Texts that are written as they are.
abbrev pub IsPlainOption : Option Text → Type 0
IsPlainOption none = Unit
IsPlainOption (some s) = IsPlain s

pub given-IsPlain : (v : Option Text) (s : Text) → given v ≡ some s → IsPlainOption v → IsPlain s
given-IsPlain none s e h = cc
given-IsPlain (some []) s e h = cc
given-IsPlain (some (c ∷ t)) s e h = let same : c ∷ t ≡ s = cc in subst IsPlain same h

pub IsSafe-raw_field : (name : Text) (v : Option Text) → IsPlainOption v → IsSafe (raw_field name v)
unfolding raw_field
IsSafe-raw_field name v h = elim (Option-cases (given v)) [
  | inl absent ↦ rw (absent, raw_field) IsSafe-nil
  | inr (s, there) ↦ rw (there, raw_field) (IsSafe-element name s (given-IsPlain v s there h))
]

pub text_or-IsPlain :
    (v : Option Text) (t : Text) → IsPlainOption v → IsPlain t → IsPlain (text_or v t)
unfolding text_or
text_or-IsPlain v t h k = elim (Option-cases (given v)) [
  | inl absent ↦ rw (absent, text_or) k
  | inr (s, there) ↦ rw (there, text_or) (given-IsPlain v s there h)
]

pub raw_or-IsPlain :
    (v : Option Text) (t : Text) → IsPlainOption v → IsPlain t → IsPlain (raw_or v t)
raw_or-IsPlain none t h k = k
raw_or-IsPlain (some s) t h k = h

plain_digit : (k : ℕ) → is_markup (b'0' + k % 10) ≡ false
plain_digit k = ground arith

digit_opens_nothing : (k : ℕ) → (b'0' + k % 10 == b'&') ≡ false
digit_opens_nothing k = ground arith

digit-IsPlain : (k : ℕ) (acc : Text) → IsPlain acc → IsPlain ((b'0' + k % 10) ∷ acc)
digit-IsPlain k acc h = IsPlain-cons (b'0' + k % 10) acc (plain_digit k) (digit_opens_nothing k) h

digits_from-IsPlain : (fuel k : ℕ) (acc : Text) → IsPlain acc → IsPlain (digits_from fuel k acc)
unfolding digits_from
digits_from-IsPlain zero k acc h = h
digits_from-IsPlain (suc fuel) k acc h =
    if_rule IsPlain (ltb k 10) (λ _. digit-IsPlain k acc h)
      (λ _. digits_from-IsPlain fuel (k / 10) ((b'0' + k % 10) ∷ acc) (digit-IsPlain k acc h))

pub to_string-IsPlain : (k : ℕ) → IsPlain (to_string k)
unfolding to_string
to_string-IsPlain k = digits_from-IsPlain (suc k) k [] IsPlain-nil

zeros-IsPlain : (k : ℕ) → IsPlain (replicate k b'0')
zeros-IsPlain zero = IsPlain-nil
zeros-IsPlain (suc k) = IsPlain-cons b'0' (replicate k b'0') refl refl (zeros-IsPlain k)

pub pad_start-IsPlain : (k : ℕ) (s : Text) → IsPlain s → IsPlain (pad_start k b'0' s)
pad_start-IsPlain k s h =
    IsPlain-append (replicate (k - length s) b'0') s (zeros-IsPlain (k - length s)) h

-- Of `toFixed`, `String(x)` and the formatting of dates: what they print is plain.
pub record IsPlainFormat {D : Type 0} (f : Format D) : Type 0 where
  pub plain_amount : (x : D) → IsPlain (f.amount x)
  pub plain_price : (x : D) → IsPlain (f.price x)
  pub plain_sub_quantity : (x : D) → IsPlain (f.sub_quantity x)
  pub plain_number : (x : D) → IsPlain (f.number x)
  pub plain_date : (t : Time) → IsPlain (f.date t)

pub amount-IsPlain : {D : Type 0} (f : Format D) (x : D) → IsPlainFormat f → IsPlain (f.amount x)
amount-IsPlain f x h = h.plain_amount x

pub price-IsPlain : {D : Type 0} (f : Format D) (x : D) → IsPlainFormat f → IsPlain (f.price x)
price-IsPlain f x h = h.plain_price x

pub sub_quantity-IsPlain :
    {D : Type 0} (f : Format D) (x : D) → IsPlainFormat f → IsPlain (f.sub_quantity x)
sub_quantity-IsPlain f x h = h.plain_sub_quantity x

pub number-IsPlain : {D : Type 0} (f : Format D) (x : D) → IsPlainFormat f → IsPlain (f.number x)
number-IsPlain f x h = h.plain_number x

pub date-IsPlain : {D : Type 0} (f : Format D) (x : Time) → IsPlainFormat f → IsPlain (f.date x)
date-IsPlain f x h = h.plain_date x

module _ (n : Numbers) (f : Format n.Double) where
  pub IsSafe-truthy_field :
      (name : Text) (v : Option n.Double) → IsPlainFormat f → IsSafe (truthy_field n f name v)
  unfolding truthy_field
  IsSafe-truthy_field name none h = IsSafe-nil
  IsSafe-truthy_field name (some x) h =
      if_rule IsSafe (n.truthy x) (λ _. IsSafe-element name (f.amount x) (h.plain_amount x))
        (λ _. IsSafe-nil)

  pub IsSafe-positive_field :
      (name : Text) (v : Option n.Double) → IsPlainFormat f → IsSafe (positive_field n f name v)
  unfolding positive_field
  IsSafe-positive_field name none h = IsSafe-nil
  IsSafe-positive_field name (some x) h =
      if_rule IsSafe (n.lt (n.of_nat 0) x)
        (λ _. IsSafe-element name (f.amount x) (h.plain_amount x)) (λ _. IsSafe-nil)

  pub IsSafe-amount_field :
      (name : Text) (v : Option n.Double) → IsPlainFormat f → IsSafe (amount_field n f name v)
  unfolding amount_field
  IsSafe-amount_field name none h = IsSafe-nil
  IsSafe-amount_field name (some x) h = IsSafe-element name (f.amount x) (h.plain_amount x)

  pub IsSafe-number_field :
      (name : Text) (v : Option n.Double) → IsPlainFormat f → IsSafe (number_field n f name v)
  unfolding number_field
  IsSafe-number_field name none h = IsSafe-nil
  IsSafe-number_field name (some x) h =
      if_rule IsSafe (n.truthy x) (λ _. IsSafe-element name (f.number x) (h.plain_number x))
        (λ _. IsSafe-nil)

pub ruleset safe = (
  IsSafe-append, IsSafe-text_line, IsSafe-text_field, IsSafe-only_if, IsSafe-open_tag,
  IsSafe-for_each, IsSafe-nil,
)

-- With the lines that print a number or a text as it is.
pub ruleset printed = (
  IsSafe-append, IsSafe-text_line, IsSafe-text_field, IsSafe-only_if, IsSafe-open_tag,
  IsSafe-for_each, IsSafe-nil, IsSafe-raw_line, IsSafe-raw_field, IsSafe-truthy_field,
  IsSafe-positive_field, IsSafe-amount_field, IsSafe-number_field, text_or-IsPlain, raw_or-IsPlain,
  to_string-IsPlain, pad_start-IsPlain, IsPlain-append, amount-IsPlain, price-IsPlain,
  sub_quantity-IsPlain, number-IsPlain, date-IsPlain,
)
