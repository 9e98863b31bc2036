-- ===== src/Encf/Format.antt =====
-- `formatEncf` and `isValidEncf` agree: an eNCF is valid exactly if it is the format of a known type
-- and a sequential number of one to ten digits.
use ecf_api.Prelude.{
  ℕ, ◌+◌, ◌/◌, ◌%◌, ◌^◌, ◌<◌, ◌≡◌, refl, sym, ap, ◌∙◌, true, false, [], ◌∷◌, ◌++◌, Option, none,
  some, arith, ltb, leb, ◌==◌, if◌then◌else◌, length, drop, includes, Bool-cases, inl, inr, ltb→lt,
}
use ecf_api.Prelude.Int.{ℤ, pos}
use ecf_api.Prelude.Text.{
  Text, is_digit, all_digits, to_string, pad_start, digits_value, parse_signed, skip_space,
  is_space, parse_int,
}
use ecf_api.Prelude.Text.Laws.{
  length-padded, all_digits-padded, digits_value-padded, padded-digits_value, digits_value-bound,
}
use ecf_api.Types.{EcfType}
use ecf_api.Encf.{
  type_code, valid_types, number_test, format_encf, get_type_from_encf, is_valid_encf,
}

-- A text that begins with a digit is read as the number of its digits.
pub parse_int-digits :
    (c : ℕ) (s : Text) → is_digit c ≡ true → parse_int (c ∷ s) ≡ some (pos (digits_value 0 (c ∷ s)))
unfolding parse_int
parse_int-digits c s d = ground arith

-- The parts of a valid eNCF are enough for `isValidEncf`.
is_valid_encf_of_parts :
    (a b : ℕ) (ds : Text)
    → is_digit a ≡ true
    → is_digit b ≡ true
    → includes (digits_value 0 (a ∷ b ∷ [])) valid_types ≡ true
    → length ds ≡ 10
    → all_digits ds ≡ true
    → 0 < digits_value 0 ds
    → is_valid_encf (b'E' ∷ a ∷ b ∷ ds) ≡ true
unfolding is_valid_encf
is_valid_encf_of_parts a b [] da db known len digits positive = absurd (omega arith)
is_valid_encf_of_parts a b (c ∷ ds) da db known len digits positive =
    let whole : (length (b'E' ∷ a ∷ b ∷ c ∷ ds) == 13) ≡ true = ground arith in
    let first : is_digit c ≡ true = ground arith in
    let ten : (length (c ∷ ds) == 10) ≡ true = ground arith in
    let found : ltb 0 (digits_value 0 (c ∷ ds)) ≡ true = ground arith in
    rw
      (
        whole,
        parse_int-digits a (b ∷ []) da,
        known,
        parse_int-digits c ds first,
        ten,
        digits,
        found,
      )
      refl

-- The two digits of a type.
abbrev tens : EcfType → ℕ
tens t = b'0' + type_code t / 10

abbrev ones : EcfType → ℕ
ones t = b'0' + type_code t % 10

to_string-type_code : (t : EcfType) → to_string (type_code t) ≡ tens t ∷ ones t ∷ []
unfolding to_string
to_string-type_code EcfType.e31 = refl
to_string-type_code _ = refl

type_code-known :
    (t : EcfType)
    → (is_digit (tens t) ≡ true)
      × (is_digit (ones t) ≡ true)
      × (digits_value 0 (tens t ∷ ones t ∷ []) ≡ type_code t)
      × (includes (digits_value 0 (tens t ∷ ones t ∷ [])) valid_types ≡ true)
type_code-known EcfType.e31 = (refl, refl, refl, refl)
type_code-known _ = (refl, refl, refl, refl)

-- The eNCF that `formatEncf` makes of a known type and of a positive number of at most ten digits
-- passes `isValidEncf`.
pub format_encf-valid :
    (t : EcfType) (n : ℕ) → 0 < n → n < 10 ^ 10 → is_valid_encf (format_encf (type_code t) n) ≡ true
unfolding format_encf
format_encf-valid t n h lt =
    let (da, db, _, known) = type_code-known t in
    rw (to_string-type_code t) (
      is_valid_encf_of_parts (tens t) (ones t) (pad_start 10 b'0' (to_string n)) da db known
        (length-padded n lt) (all_digits-padded n lt) (rw (digits_value-padded n lt) h))

-- The type is read back.
pub get_type-format :
    (t : EcfType) (n : ℕ)
    → get_type_from_encf (format_encf (type_code t) n) ≡ some (pos (type_code t))
unfolding format_encf get_type_from_encf
get_type-format t n =
    let (da, _, value, _) = type_code-known t in
    rw (to_string-type_code t) (parse_int-digits (tens t) (ones t ∷ []) da ∙ rw value)

-- The sequential number is read back, as `annulSequences` reads it.
pub parse_int-format :
    (t : EcfType) (n : ℕ)
    → n < 10 ^ 10
    → parse_int (drop 3 (format_encf (type_code t) n)) ≡ some (pos n)
unfolding format_encf
parse_int-format t n lt = rw (to_string-type_code t) (
    padded (pad_start 10 b'0' (to_string n)) (length-padded n lt) (all_digits-padded n lt)
    ∙ rw (digits_value-padded n lt))
  where
    padded :
        (s : Text)
        → length s ≡ 10
        → all_digits s ≡ true
        → parse_int s ≡ some (pos (digits_value 0 s))
    padded [] len d = absurd (omega arith)
    padded (c ∷ s) len d = parse_int-digits c s (ground arith)

-- What `isValidEncf` leaves of a text.
valid_shape :
    (s : Text)
    → is_valid_encf s ≡ true
    → (a : ℕ) × (b : ℕ) × (ds : Text) × (s ≡ b'E' ∷ a ∷ b ∷ ds)
      × (number_test (parse_int (a ∷ b ∷ [])) (λ code. includes code valid_types) ≡ true)
      × (length ds ≡ 10)
      × (all_digits ds ≡ true)
      × (number_test (parse_int ds) (λ n. ltb 0 n) ≡ true)
unfolding is_valid_encf
valid_shape [] h = cc
valid_shape (e ∷ []) h = ground arith
valid_shape (e ∷ a ∷ []) h = ground arith
valid_shape (e ∷ a ∷ b ∷ ds) h =
    (a, b, ds, ground arith, ground arith, ground arith, ground arith, ground arith)

type_of_code : ℕ → EcfType
type_of_code n =
    if n == 31
    then EcfType.e31
    else if n == 32
    then EcfType.e32
    else if n == 33
    then EcfType.e33
    else if n == 34
    then EcfType.e34
    else if n == 41
    then EcfType.e41
    else if n == 43
    then EcfType.e43
    else if n == 44
    then EcfType.e44
    else if n == 45
    then EcfType.e45
    else if n == 46
    then EcfType.e46
    else EcfType.e47

type_code-type_of_code : (n : ℕ) → includes n valid_types ≡ true → type_code (type_of_code n) ≡ n
unfolding type_of_code
type_code-type_of_code n h = ground arith

known-ge : (n : ℕ) → includes n valid_types ≡ true → leb 10 n ≡ true
known-ge n h = ground arith

number_test_mono :
    (o : Option ℤ)
    → number_test o (λ n. includes n valid_types) ≡ true
    → number_test o (λ n. leb 10 n) ≡ true
number_test_mono (some (pos n)) h = known-ge n h
number_test_mono (some (ℤ.negsuc n)) h = h
number_test_mono none h = h

one_char : (b : ℕ) → number_test (parse_signed (b ∷ [])) (λ n. leb 10 n) ≡ false
one_char b = ground arith

one_skipped : (b : ℕ) → number_test (parse_signed (skip_space (b ∷ []))) (λ n. leb 10 n) ≡ false
one_skipped b = elim (Bool-cases (is_space b)) [
  | inl blank ↦ rw blank
  | inr solid ↦ rw solid (one_char b)
]

two_chars :
    (a b : ℕ)
    → number_test (parse_signed (a ∷ b ∷ [])) (λ n. leb 10 n) ≡ true
    → (is_digit a ≡ true) × (is_digit b ≡ true)
two_chars a b h = ground arith

-- Two characters that `parseInt` reads as ten or more are two digits.
two_digits :
    (a b : ℕ)
    → number_test (parse_int (a ∷ b ∷ [])) (λ n. leb 10 n) ≡ true
    → (is_digit a ≡ true) × (is_digit b ≡ true)
unfolding parse_int
two_digits a b h = elim (Bool-cases (is_space a)) [
  | inl blank ↦ cc (one_skipped b, rw blank at h)
  | inr solid ↦ two_chars a b (rw solid at h)
]

digits_of_value :
    (a b v : ℕ)
    → is_digit a ≡ true
    → is_digit b ≡ true
    → v ≡ digits_value 0 (a ∷ b ∷ [])
    → (a ≡ b'0' + v / 10) × (b ≡ b'0' + v % 10)
digits_of_value a b v da db e = ground arith

-- The two characters of a known type are its digits.
type_of_digits :
    (a b : ℕ)
    → number_test (parse_int (a ∷ b ∷ [])) (λ code. includes code valid_types) ≡ true
    → (t : EcfType) × (a ≡ tens t) × (b ≡ ones t)
type_of_digits a b h =
    let (da, db) = two_digits a b (number_test_mono (parse_int (a ∷ b ∷ [])) h) in
    let value = digits_value 0 (a ∷ b ∷ []) in
    let known : includes value valid_types ≡ true = rw (parse_int-digits a (b ∷ []) da) at h in
    let code : type_code (type_of_code value) ≡ value = type_code-type_of_code value known in
    let (ea, eb) = digits_of_value a b (type_code (type_of_code value)) da db code in
    (type_of_code value, ea, eb)

positive_value :
    (s : Text)
    → all_digits s ≡ true
    → number_test (parse_int s) (λ n. ltb 0 n) ≡ true
    → 0 < digits_value 0 s
unfolding parse_int
positive_value [] d h = cc
positive_value (c ∷ s) d h =
    let digit : is_digit c ≡ true = ground arith in
    let positive : ltb 0 (digits_value 0 (c ∷ s)) ≡ true = rw (parse_int-digits c s digit) at h in
    ltb→lt _ _ positive

-- What `isValidEncf` accepts is the format of a type and of a number of one to ten digits.
pub is_valid_encf_sound :
    (s : Text)
    → is_valid_encf s ≡ true
    → (t : EcfType) × (n : ℕ) × (0 < n) × (n < 10 ^ 10) × (s ≡ format_encf (type_code t) n)
unfolding format_encf
is_valid_encf_sound s h =
    let (a, b, ds, shape, known, len, digits, positive) = valid_shape s h in
    let (t, ea, eb) = type_of_digits a b known in
    let below : digits_value 0 ds < 10 ^ 10 = rw len at (digits_value-bound ds 0 digits) in
    (
      t,
      digits_value 0 ds,
      positive_value ds digits positive,
      below,
      shape ∙ (rw (to_string-type_code t, padded-digits_value ds len digits below, ea, eb)),
    )

type_of_code-type_code : (t : EcfType) → type_of_code (type_code t) ≡ t
unfolding type_of_code
type_of_code-type_code EcfType.e31 = refl
type_of_code-type_code _ = refl

pub type_code-injective : (s t : EcfType) → type_code s ≡ type_code t → s ≡ t
type_code-injective s t e =
    sym (type_of_code-type_code s) ∙ (ap type_of_code e ∙ type_of_code-type_code t)

-- An eNCF determines its type and its number.
pub format_encf-injective :
    (s t : EcfType) (m n : ℕ)
    → m < 10 ^ 10
    → n < 10 ^ 10
    → format_encf (type_code s) m ≡ format_encf (type_code t) n
    → (s ≡ t) × (m ≡ n)
format_encf-injective s t m n hm hn e = (
  type_code-injective s t
      (same_number (sym (get_type-format s m) ∙ (ap get_type_from_encf e ∙ get_type-format t n))),
  same_number (
      sym (parse_int-format s m hm) ∙ (ap (λ x. parse_int (drop 3 x)) e ∙ parse_int-format t n hn)),
)
  where
    same_number : {a b : ℕ} → some (pos a) ≡ some (pos b) → a ≡ b
    same_number h = cc h

-- The prefixes that the sequences carry are those of `formatEncf`.
pub type_prefix-format :
    (t : EcfType) (p : Text) (n : ℕ)
    → p ≡ b'E' ∷ to_string (type_code t)
    → p ++ pad_start 10 b'0' (to_string n) ≡ format_encf (type_code t) n
unfolding format_encf
type_prefix-format t p n e = rw e
