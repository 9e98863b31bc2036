-- ===== src/Prelude/Text/Laws.antt =====
-- Decimal texts: zero-padded numbers are texts of digits, read back as the number, and ordered as it.
use ecf_api.Prelude.{
  ℕ, zero, suc, ◌+◌, ◌-◌, ◌*◌, ◌/◌, ◌%◌, ◌^◌, ◌≤◌, ◌<◌, ◌≡◌, refl, sym, ap, ◌∙◌, true, ◌↔◌, [], ◌∷◌,
  ◌++◌, arith, ltb, leb, length, replicate, Bool-cases, inl, inr,
}
use native.Mathlib.Nat.{pow-suc}
use ecf_api.Prelude.Text.{
  Text, text_eq, text_leb, is_digit, all_digits, digits_from, to_string, pad_start, digits_value,
}

pub text_eq_iff : (s t : Text) → (text_eq s t ≡ true) ↔ (s ≡ t)
text_eq_iff [] [] = (λ _. refl, λ _. refl)
text_eq_iff [] (d ∷ t) = (λ h. cc, λ h. cc)
text_eq_iff (c ∷ s) [] = (λ h. cc, λ h. cc)
text_eq_iff (c ∷ s) (d ∷ t) =
    (λ h. ground (arith, (text_eq_iff s t).0), λ h. ground (arith, (text_eq_iff s t).1))

-- The `width` lowest digits of `n` before `acc`.
fixed : ℕ → ℕ → Text → Text
fixed zero n acc = acc
fixed (suc w) n acc = fixed w (n / 10) ((b'0' + n % 10) ∷ acc)

replicate-snoc : (w c : ℕ) (acc : Text) → replicate w c ++ (c ∷ acc) ≡ c ∷ (replicate w c ++ acc)
replicate-snoc zero c acc = refl
replicate-snoc (suc w) c acc = ap (λ t. c ∷ t) (replicate-snoc w c acc)

fixed-zero : (w : ℕ) (acc : Text) → fixed w 0 acc ≡ replicate w b'0' ++ acc
unfolding fixed
fixed-zero zero acc = refl
fixed-zero (suc w) acc = fixed-zero w (b'0' ∷ acc) ∙ replicate-snoc w b'0' acc

-- The last digit, padded.
pad_last :
    (w n : ℕ) (acc : Text)
    → ltb n 10 ≡ true
    → pad_start (suc w + length acc) b'0' ((b'0' + n % 10) ∷ acc)
      ≡ fixed w (n / 10) ((b'0' + n % 10) ∷ acc)
pad_last w n acc small =
    let room : suc w + length acc - suc (length acc) ≡ w = omega arith in
    let none_left : n / 10 ≡ 0 = ground arith in
    rw (room, none_left) (sym (fixed-zero w ((b'0' + n % 10) ∷ acc)))

-- Padding the digits of a number to a width that holds them gives all its digits at that width.
pad-digits_from :
    (w f n : ℕ) (acc : Text)
    → n < 10 ^ suc w
    → n < f
    → pad_start (suc w + length acc) b'0' (digits_from f n acc) ≡ fixed (suc w) n acc
unfolding fixed digits_from
pad-digits_from w zero n acc h lt = elim lt [ ]
pad-digits_from zero (suc f) n acc h lt =
    let small : ltb n 10 ≡ true = ground arith in rw small (pad_last zero n acc small)
pad-digits_from (suc w) (suc f) n acc h lt = elim (Bool-cases (ltb n 10)) [
  | inl small ↦ rw small (pad_last (suc w) n acc small)
  | inr large ↦
      let p : 10 ^ suc (suc w) ≡ 10 ^ suc w * 10 = pow-suc 10 (suc w) in
      let width : suc (suc w) + length acc ≡ suc w + suc (length acc) = omega arith in
      rw (large, width)
        (pad-digits_from w f (n / 10) ((b'0' + n % 10) ∷ acc) (omega (arith, p)) (ground arith))
]

digits_value-fixed :
    (w n a : ℕ) (acc : Text)
    → n < 10 ^ w
    → digits_value a (fixed w n acc) ≡ digits_value (a * 10 ^ w + n) acc
unfolding fixed
digits_value-fixed zero n a acc h = let e : a * 10 ^ 0 + n ≡ a = omega arith in rw e
digits_value-fixed (suc w) n a acc h =
    let p : 10 ^ suc w ≡ 10 ^ w * 10 = pow-suc 10 w in
    let below : n / 10 < 10 ^ w = omega arith in
    let joined : (a * 10 ^ w + n / 10) * 10 + (b'0' + n % 10 - b'0') ≡ a * 10 ^ suc w + n =
      rw p (omega arith) in
    let digit : is_digit (b'0' + n % 10) ≡ true = ground arith in
    rw (digits_value-fixed w (n / 10) a ((b'0' + n % 10) ∷ acc) below) (rw (digit, joined))

pub digits_value-injective :
    (s t : Text) (a b : ℕ)
    → length s ≡ length t
    → all_digits s ≡ true
    → all_digits t ≡ true
    → digits_value a s ≡ digits_value b t
    → (a ≡ b) × (s ≡ t)
digits_value-injective [] [] a b l hs ht e = (e, refl)
digits_value-injective [] (d ∷ t) a b l hs ht e = absurd (omega arith)
digits_value-injective (c ∷ s) [] a b l hs ht e = absurd (omega arith)
digits_value-injective (c ∷ s) (d ∷ t) a b l hs ht e =
    ground (arith, digits_value-injective s t (a * 10 + (c - 48)) (b * 10 + (d - 48)))

digits_value-lt :
    (s t : Text) (a b : ℕ)
    → length s ≡ length t
    → all_digits s ≡ true
    → all_digits t ≡ true
    → a < b
    → digits_value a s < digits_value b t
digits_value-lt [] [] a b l hs ht lt = lt
digits_value-lt [] (d ∷ t) a b l hs ht lt = absurd (omega arith)
digits_value-lt (c ∷ s) [] a b l hs ht lt = absurd (omega arith)
digits_value-lt (c ∷ s) (d ∷ t) a b l hs ht lt =
    ground (arith, digits_value-lt s t (a * 10 + (c - 48)) (b * 10 + (d - 48)))

-- Among texts of digits of one length, the order of the code units is that of the numbers.
pub text_leb-digits :
    (s t : Text) (a : ℕ)
    → length s ≡ length t
    → all_digits s ≡ true
    → all_digits t ≡ true
    → text_leb s t ≡ leb (digits_value a s) (digits_value a t)
text_leb-digits [] [] a l hs ht = ground arith
text_leb-digits [] (d ∷ t) a l hs ht = absurd (omega arith)
text_leb-digits (c ∷ s) [] a l hs ht = absurd (omega arith)
text_leb-digits (c ∷ s) (d ∷ t) a l hs ht = ground (
  arith,
  text_leb-digits s t (a * 10 + (c - 48)),
  digits_value-lt s t (a * 10 + (c - 48)) (a * 10 + (d - 48)),
  digits_value-lt t s (a * 10 + (d - 48)) (a * 10 + (c - 48)),
)

length-fixed : (w n : ℕ) (acc : Text) → length (fixed w n acc) ≡ w + length acc
unfolding fixed
length-fixed zero n acc = omega arith
length-fixed (suc w) n acc = omega (arith, length-fixed w (n / 10) ((b'0' + n % 10) ∷ acc))

all_digits-fixed :
    (w n : ℕ) (acc : Text) → all_digits acc ≡ true → all_digits (fixed w n acc) ≡ true
unfolding fixed
all_digits-fixed zero n acc h = h
all_digits-fixed (suc w) n acc h =
    all_digits-fixed w (n / 10) ((b'0' + n % 10) ∷ acc) (ground arith)

-- `String(n).padStart(10, '0')`, the ten digits of a sequential number.
module _ (n : ℕ) (h : n < 10 ^ 10) where
  padded-fixed : pad_start 10 b'0' (to_string n) ≡ fixed 10 n []
  unfolding to_string
  padded-fixed = pad-digits_from 9 (suc n) n [] h (omega arith)

  pub length-padded : length (pad_start 10 b'0' (to_string n)) ≡ 10
  length-padded = rw padded-fixed (length-fixed 10 n [])

  pub all_digits-padded : all_digits (pad_start 10 b'0' (to_string n)) ≡ true
  all_digits-padded = rw padded-fixed (all_digits-fixed 10 n [] refl)

  pub digits_value-padded : digits_value 0 (pad_start 10 b'0' (to_string n)) ≡ n
  digits_value-padded = rw padded-fixed (digits_value-fixed 10 n 0 [] h ∙ (omega arith))

pub text_leb-padded :
    (m n : ℕ)
    → m < 10 ^ 10
    → n < 10 ^ 10
    → text_leb (pad_start 10 b'0' (to_string m)) (pad_start 10 b'0' (to_string n)) ≡ leb m n
text_leb-padded m n hm hn =
    text_leb-digits (pad_start 10 b'0' (to_string m)) (pad_start 10 b'0' (to_string n)) 0
      (length-padded m hm ∙ sym (length-padded n hn)) (all_digits-padded m hm)
      (all_digits-padded n hn)
    ∙ rw (digits_value-padded m hm, digits_value-padded n hn)

-- Ten digits are the padded text of the number that they make.
pub padded-digits_value :
    (s : Text)
    → length s ≡ 10
    → all_digits s ≡ true
    → digits_value 0 s < 10 ^ 10
    → pad_start 10 b'0' (to_string (digits_value 0 s)) ≡ s
padded-digits_value s l d h =
    (digits_value-injective (pad_start 10 b'0' (to_string (digits_value 0 s))) s 0 0
      (length-padded _ h ∙ sym l) (all_digits-padded _ h) d (digits_value-padded _ h)).1

digit_room : (a k p : ℕ) → k ≤ 9 → (a * 10 + k + 1) * p ≤ (a + 1) * (p * 10)
digit_room a k p h = grind arith

pub digits_value-bound :
    (s : Text) (a : ℕ) → all_digits s ≡ true → digits_value a s < (a + 1) * 10 ^ length s
digits_value-bound [] a d = omega arith
digits_value-bound (c ∷ s) a d =
    let digit : is_digit c ≡ true = ground arith in
    let small : c - b'0' ≤ 9 = ground arith in
    rw (digit, pow-suc 10 (length s))
      (omega (
        arith,
        digits_value-bound s (a * 10 + (c - b'0')) (ground arith),
        digit_room a (c - b'0') (10 ^ length s) small,
      ))
