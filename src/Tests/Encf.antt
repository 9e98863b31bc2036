-- ===== src/Tests/Encf.antt =====
-- Tax numbers of src/xml-builder/ecf-types.ts at work.
use ecf_api.Prelude.{ℕ, ◌^◌, ◌<◌, ◌≡◌, refl, true, false, some, arith}
use ecf_api.Prelude.Int.{pos}
use ecf_api.Prelude.Text.{codes, to_string, parse_int}
use ecf_api.Types.{EcfType, e32}
use ecf_api.Encf.{
  type_code, format_encf, get_type_from_encf, is_valid_encf, is_valid_ncf_modificado,
  is_isc_advalorem_alcohol,
}
use ecf_api.Encf.Format.{format_encf-valid, is_valid_encf_sound}

format_first : format_encf 31 1 ≡ codes "E310000000001"
unfolding format_encf to_string
format_first = refl

type_of_first : get_type_from_encf (codes "E310000000001") ≡ some (pos 31)
unfolding get_type_from_encf parse_int
type_of_first = refl

zero_is_invalid : is_valid_encf (codes "E310000000000") ≡ false
unfolding is_valid_encf parse_int
zero_is_invalid = refl

unknown_type : is_valid_encf (codes "E420000000001") ≡ false
unfolding is_valid_encf parse_int
unknown_type = refl

series_b : is_valid_ncf_modificado (codes "B0100000001") ≡ true
unfolding is_valid_ncf_modificado
series_b = refl

whisky : is_isc_advalorem_alcohol (codes "023") ≡ true
unfolding is_isc_advalorem_alcohol parse_int
whisky = refl

format_encf-valid_example : is_valid_encf (format_encf (type_code e32) 2147483647) ≡ true
format_encf-valid_example = format_encf-valid e32 2147483647 (omega arith) (omega arith)

accepted_text : is_valid_encf (codes "E470000000042") ≡ true
unfolding is_valid_encf parse_int
accepted_text = refl

is_valid_encf_sound_example :
    (t : EcfType) × (n : ℕ) × (0 < n)
    × (n < 10 ^ 10)
    × (codes "E470000000042" ≡ format_encf (type_code t) n)
is_valid_encf_sound_example = is_valid_encf_sound (codes "E470000000042") accepted_text

read_whisky : parse_int (codes "023") ≡ some (pos 23)
unfolding parse_int
read_whisky = refl
