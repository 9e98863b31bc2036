-- ===== src/Rnc/Detection.antt =====
-- What the check digit of a cédula detects.
use ecf_api.Prelude.{
  ℕ, zero, suc, ◌+◌, ◌-◌, ◌%◌, ◌<◌, ◌≤◌, ◌≡◌, ◌≢◌, refl, Bool, true, false, not, [], ◌∷◌, Option,
  none, some, arith, length, get_elem?, set, Bool-cases, inl, inr, ltb, ◌==◌, get_elem?-set_self,
  get_elem?-set_ne,
}
use ecf_api.Prelude.Text.{Text, is_digit, all_digits}
use ecf_api.Rnc.{digit, luhn_value, luhn_sum, validate_cedula_check_digit}

luhn_value-small : (b : Bool) (d : ℕ) → d < 10 → luhn_value b d < 10
unfolding luhn_value
luhn_value-small true d h = ground arith
luhn_value-small false d h = ground arith

luhn_value-injective :
    (b : Bool) (c d : ℕ) → c < 10 → d < 10 → luhn_value b c ≡ luhn_value b d → c ≡ d
unfolding luhn_value
luhn_value-injective true c d g h e = ground arith
luhn_value-injective false c d g h e = ground arith

luhn_sum-set_beyond :
    (n : ℕ) (b : Bool) (s : Text) (i v : ℕ) → n ≤ i → luhn_sum n b (set s i v) ≡ luhn_sum n b s
unfolding luhn_sum
luhn_sum-set_beyond zero b s i v h = refl
luhn_sum-set_beyond (suc n) b [] i v h = refl
luhn_sum-set_beyond (suc n) b (c ∷ s) zero v h = omega arith
luhn_sum-set_beyond (suc n) b (c ∷ s) (suc i) v h =
    omega (arith, luhn_sum-set_beyond n (not b) s i v (omega arith))

differs :
    (b : Bool) (c v rest : ℕ)
    → c < 10
    → v < 10
    → c ≢ v
    → (luhn_value b v + rest) % 10 ≢ (luhn_value b c + rest) % 10
differs b c v rest small_c small_v other same = other (
    luhn_value-injective b c v small_c small_v
      (omega (arith, same, luhn_value-small b c small_c, luhn_value-small b v small_v)))

luhn_sum-set :
    (n : ℕ) (b : Bool) (s : Text) (i c v : ℕ)
    → i < n
    → get_elem? s i ≡ some c
    → digit c < 10
    → digit v < 10
    → digit c ≢ digit v
    → luhn_sum n b (set s i v) % 10 ≢ luhn_sum n b s % 10
unfolding luhn_sum
luhn_sum-set zero b s i c v h at small_c small_v other = ground arith
luhn_sum-set (suc n) b [] i c v h at small_c small_v other = ground arith
luhn_sum-set (suc n) b (d ∷ s) zero c v h at small_c small_v other =
    differs b (digit d) (digit v) (luhn_sum n (not b) s) (ground arith) small_v (ground arith)
luhn_sum-set (suc n) b (d ∷ s) (suc i) c v h at small_c small_v other =
    let rest = luhn_sum-set n (not b) s i c v (omega arith) at small_c small_v other in
    λ same. rest (omega (arith, same))

index_below : (s : Text) (i : ℕ) {c : ℕ} → get_elem? s i ≡ some c → i < length s
index_below [] i at = ground arith
index_below (d ∷ s) zero at = omega arith
index_below (d ∷ s) (suc i) at = omega (arith, index_below s i at)

le_ten : (i n : ℕ) → ltb i 10 ≡ false → i < n → n ≡ 11 → i ≡ 10
le_ten i n late below len = ground arith

is_digit_at :
    (s : Text) (i : ℕ) {c : ℕ} → all_digits s ≡ true → get_elem? s i ≡ some c → is_digit c ≡ true
is_digit_at [] i all at = ground arith
is_digit_at (d ∷ s) zero all at = ground arith
is_digit_at (d ∷ s) (suc i) all at = is_digit_at s i (ground arith) at

digit_small : (c : ℕ) → is_digit c ≡ true → digit c < 10
digit_small c h = ground arith

digit-injective : (c v : ℕ) → is_digit c ≡ true → is_digit v ≡ true → digit c ≡ digit v → c ≡ v
digit-injective c v g h e = ground arith

-- What the check of a cédula accepts.
abbrev IsChecked : Text → Type 0
IsChecked s =
    (length s ≡ 11)
    × (all_digits s ≡ true)
    × (c : ℕ) × (get_elem? s 10 ≡ some c)
    × (digit c ≡ (10 - luhn_sum 10 false s % 10) % 10)

digit_is-eq :
    (x : Option ℕ) (n : ℕ)
    → (elim x as (λ _. Bool) [ none ↦ false | some c ↦ digit c == n ]) ≡ true
    → (c : ℕ) × (x ≡ some c) × (digit c ≡ n)
digit_is-eq none n e = ground arith
digit_is-eq (some c) n e = (c, refl, ground arith)

accepted-IsChecked : (s : Text) → validate_cedula_check_digit s ≡ true → IsChecked s
unfolding validate_cedula_check_digit
accepted-IsChecked s good =
    let (c, last, check) =
      digit_is-eq (get_elem? s 10) ((10 - luhn_sum 10 false s % 10) % 10) (ground arith) in
    (ground arith, ground arith, c, last, check)

not_both :
    (s : Text) (i c v : ℕ)
    → IsChecked s
    → get_elem? s i ≡ some c
    → digit v < 10
    → digit c ≢ digit v
    → IsChecked (set s i v)
    → ⊥
not_both s i c v (len, all, d, last, check) at small other (_, _, d', last', check') =
    elim (Bool-cases (ltb i 10)) [
      | inl early ↦
          let kept = get_elem?-set_ne s {i = i} {j = 10} v (λ e. ground (arith, e)) in
          let same : d' ≡ d = cc (kept, last, last') in
          luhn_sum-set 10 false s i c v (ground arith) at (digit_small c (is_digit_at s i all at))
            small other (omega (arith, check, check', same))
      | inr late ↦
          let ten : i ≡ 10 = le_ten i (length s) late (index_below s i at) len in
          let sum = luhn_sum-set_beyond 10 false s i v (omega (arith, ten)) in
          let new = get_elem?-set_self s i v (index_below s i at) in
          let last_new : d' ≡ v = cc (new, last', ten) in
          let last_old : d ≡ c = cc (at, last, ten) in
          other (omega (arith, sum, check, check', last_new, last_old))
    ]

-- If the check digit of a cédula is right, then it is wrong after any one of the eleven digits is
-- replaced by a different one.
pub validate_cedula-one_error :
    (s : Text) (i c v : ℕ)
    → validate_cedula_check_digit s ≡ true
    → get_elem? s i ≡ some c
    → is_digit v ≡ true
    → c ≢ v
    → validate_cedula_check_digit (set s i v) ≡ false
validate_cedula-one_error s i c v good at is_new other =
    elim (Bool-cases (validate_cedula_check_digit (set s i v))) [
      | inl bad ↦
          let checked = accepted-IsChecked s good in
          absurd (
            not_both s i c v checked at (digit_small v is_new)
              (λ e. other (digit-injective c v (is_digit_at s i checked.1 at) is_new e))
              (accepted-IsChecked (set s i v) bad))
      | inr refused ↦ refused
    ]
