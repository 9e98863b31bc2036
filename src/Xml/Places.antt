-- ===== src/Xml/Places.antt =====
-- The codes of provinces and municipalities: src/xml-builder/provincia-municipio-codes.ts.
use ecf_api.Prelude.{Bool, false, ◌||◌, List, [], ◌∷◌}
use ecf_api.Prelude.Text.{Text, codes, text_eq}

-- `CODES.includes(code)`, as far as one row of the table.
abbrev pub is_one_of : List Text → Text → Bool
is_one_of [] s = false
is_one_of (c ∷ cs) s = text_eq c s || is_one_of cs s

province_01 : List Text
province_01 = codes "010000" ∷ codes "010100" ∷ codes "010101" ∷ []

province_02 : List Text
province_02 =
    codes "020000"
    ∷ codes "020100"
    ∷ codes "020101"
    ∷ codes "020102"
    ∷ codes "020103"
    ∷ codes "020104"
    ∷ codes "020105"
    ∷ codes "020106"
    ∷ codes "020107"
    ∷ codes "020108"
    ∷ codes "020109"
    ∷ codes "020200"
    ∷ codes "020201"
    ∷ codes "020202"
    ∷ codes "020300"
    ∷ codes "020301"
    ∷ codes "020302"
    ∷ codes "020303"
    ∷ codes "020400"
    ∷ codes "020401"
    ∷ codes "020402"
    ∷ codes "020403"
    ∷ codes "020404"
    ∷ codes "020405"
    ∷ codes "020500"
    ∷ codes "020501"
    ∷ codes "020600"
    ∷ codes "020601"
    ∷ codes "020602"
    ∷ codes "020603"
    ∷ codes "020604"
    ∷ codes "020700"
    ∷ codes "020701"
    ∷ codes "020702"
    ∷ codes "020800"
    ∷ codes "020801"
    ∷ codes "020802"
    ∷ codes "020803"
    ∷ codes "020804"
    ∷ codes "020900"
    ∷ codes "020901"
    ∷ codes "021000"
    ∷ codes "021001"
    ∷ []

province_03 : List Text
province_03 =
    codes "030000"
    ∷ codes "030001"
    ∷ codes "030101"
    ∷ codes "030102"
    ∷ codes "030200"
    ∷ codes "030201"
    ∷ codes "030202"
    ∷ codes "030300"
    ∷ codes "030301"
    ∷ codes "030302"
    ∷ codes "030303"
    ∷ codes "030304"
    ∷ codes "030305"
    ∷ codes "030306"
    ∷ codes "030307"
    ∷ codes "030400"
    ∷ codes "030401"
    ∷ codes "030500"
    ∷ codes "030501"
    ∷ codes "030502"
    ∷ []

province_04 : List Text
province_04 =
    codes "040000"
    ∷ codes "040100"
    ∷ codes "040101"
    ∷ codes "040102"
    ∷ codes "040103"
    ∷ codes "040104"
    ∷ codes "040200"
    ∷ codes "040201"
    ∷ codes "040300"
    ∷ codes "040301"
    ∷ codes "040302"
    ∷ codes "040400"
    ∷ codes "040401"
    ∷ codes "040402"
    ∷ codes "040500"
    ∷ codes "040501"
    ∷ codes "040502"
    ∷ codes "040503"
    ∷ codes "040504"
    ∷ codes "040600"
    ∷ codes "040601"
    ∷ codes "040700"
    ∷ codes "040701"
    ∷ codes "040702"
    ∷ codes "040800"
    ∷ codes "040801"
    ∷ codes "040802"
    ∷ codes "040900"
    ∷ codes "040901"
    ∷ codes "041000"
    ∷ codes "041001"
    ∷ codes "041100"
    ∷ codes "041101"
    ∷ codes "041102"
    ∷ []

province_05 : List Text
province_05 =
    codes "050000"
    ∷ codes "050100"
    ∷ codes "050101"
    ∷ codes "050102"
    ∷ codes "050200"
    ∷ codes "050201"
    ∷ codes "050202"
    ∷ codes "050203"
    ∷ codes "050300"
    ∷ codes "050301"
    ∷ codes "050400"
    ∷ codes "050401"
    ∷ codes "050500"
    ∷ codes "050501"
    ∷ codes "050502"
    ∷ []

province_06 : List Text
province_06 =
    codes "060000"
    ∷ codes "060100"
    ∷ codes "060101"
    ∷ codes "060102"
    ∷ codes "060103"
    ∷ codes "060104"
    ∷ codes "060105"
    ∷ codes "060200"
    ∷ codes "060201"
    ∷ codes "060202"
    ∷ codes "060203"
    ∷ codes "060300"
    ∷ codes "060301"
    ∷ codes "060400"
    ∷ codes "060401"
    ∷ codes "060500"
    ∷ codes "060501"
    ∷ codes "060502"
    ∷ codes "060503"
    ∷ codes "060504"
    ∷ codes "060505"
    ∷ codes "060600"
    ∷ codes "060601"
    ∷ codes "060700"
    ∷ codes "060701"
    ∷ codes "060702"
    ∷ []

province_07 : List Text
province_07 =
    codes "070000"
    ∷ codes "070100"
    ∷ codes "070101"
    ∷ codes "070102"
    ∷ codes "070103"
    ∷ codes "070200"
    ∷ codes "070201"
    ∷ codes "070202"
    ∷ codes "070203"
    ∷ codes "070300"
    ∷ codes "070301"
    ∷ codes "070302"
    ∷ codes "070400"
    ∷ codes "070401"
    ∷ codes "070402"
    ∷ codes "070500"
    ∷ codes "070501"
    ∷ codes "070502"
    ∷ codes "070600"
    ∷ codes "070601"
    ∷ []

province_08 : List Text
province_08 =
    codes "080000"
    ∷ codes "080100"
    ∷ codes "080101"
    ∷ codes "080102"
    ∷ codes "080103"
    ∷ codes "080104"
    ∷ codes "080200"
    ∷ codes "080201"
    ∷ codes "080202"
    ∷ codes "080203"
    ∷ []

province_09 : List Text
province_09 =
    codes "090000"
    ∷ codes "090100"
    ∷ codes "090101"
    ∷ codes "090102"
    ∷ codes "090103"
    ∷ codes "090104"
    ∷ codes "090105"
    ∷ codes "090106"
    ∷ codes "090107"
    ∷ codes "090108"
    ∷ codes "090109"
    ∷ codes "090200"
    ∷ codes "090201"
    ∷ codes "090300"
    ∷ codes "090301"
    ∷ codes "090302"
    ∷ codes "090303"
    ∷ codes "090304"
    ∷ codes "090400"
    ∷ codes "090401"
    ∷ []

province_10 : List Text
province_10 =
    codes "100000"
    ∷ codes "100100"
    ∷ codes "100101"
    ∷ codes "100102"
    ∷ codes "100103"
    ∷ codes "100200"
    ∷ codes "100201"
    ∷ codes "100202"
    ∷ codes "100300"
    ∷ codes "100301"
    ∷ codes "100400"
    ∷ codes "100401"
    ∷ codes "100402"
    ∷ codes "100500"
    ∷ codes "100501"
    ∷ codes "100502"
    ∷ codes "100600"
    ∷ codes "100601"
    ∷ codes "100602"
    ∷ []

province_11 : List Text
province_11 =
    codes "110000"
    ∷ codes "110100"
    ∷ codes "110101"
    ∷ codes "110102"
    ∷ codes "110103"
    ∷ codes "110104"
    ∷ codes "110200"
    ∷ codes "110201"
    ∷ codes "110202"
    ∷ codes "110203"
    ∷ []

province_12 : List Text
province_12 =
    codes "120000"
    ∷ codes "120100"
    ∷ codes "120101"
    ∷ codes "120102"
    ∷ codes "120200"
    ∷ codes "120201"
    ∷ codes "120300"
    ∷ codes "120301"
    ∷ codes "120302"
    ∷ []

province_13 : List Text
province_13 =
    codes "130000"
    ∷ codes "130100"
    ∷ codes "130101"
    ∷ codes "130102"
    ∷ codes "130103"
    ∷ codes "130104"
    ∷ codes "130105"
    ∷ codes "130200"
    ∷ codes "130201"
    ∷ codes "130202"
    ∷ codes "130203"
    ∷ codes "130300"
    ∷ codes "130301"
    ∷ codes "130302"
    ∷ codes "130303"
    ∷ codes "130400"
    ∷ codes "130401"
    ∷ codes "130402"
    ∷ []

province_14 : List Text
province_14 =
    codes "140000"
    ∷ codes "140100"
    ∷ codes "140101"
    ∷ codes "140102"
    ∷ codes "140103"
    ∷ codes "140104"
    ∷ codes "140200"
    ∷ codes "140201"
    ∷ codes "140202"
    ∷ codes "140203"
    ∷ codes "140300"
    ∷ codes "140301"
    ∷ codes "140302"
    ∷ codes "140400"
    ∷ codes "140401"
    ∷ []

province_15 : List Text
province_15 =
    codes "150000"
    ∷ codes "150100"
    ∷ codes "150101"
    ∷ codes "150200"
    ∷ codes "150201"
    ∷ codes "150202"
    ∷ codes "150300"
    ∷ codes "150301"
    ∷ codes "150302"
    ∷ codes "150303"
    ∷ codes "150304"
    ∷ codes "150400"
    ∷ codes "150401"
    ∷ codes "150500"
    ∷ codes "150501"
    ∷ codes "150502"
    ∷ codes "150600"
    ∷ codes "150601"
    ∷ []

province_16 : List Text
province_16 =
    codes "160000"
    ∷ codes "160100"
    ∷ codes "160101"
    ∷ codes "160102"
    ∷ codes "160200"
    ∷ codes "160201"
    ∷ codes "160202"
    ∷ []

province_17 : List Text
province_17 =
    codes "170000"
    ∷ codes "170100"
    ∷ codes "170101"
    ∷ codes "170102"
    ∷ codes "170103"
    ∷ codes "170104"
    ∷ codes "170105"
    ∷ codes "170106"
    ∷ codes "170107"
    ∷ codes "170108"
    ∷ codes "170109"
    ∷ codes "170110"
    ∷ codes "170200"
    ∷ codes "170201"
    ∷ codes "170202"
    ∷ codes "170203"
    ∷ codes "170300"
    ∷ codes "170301"
    ∷ []

province_18 : List Text
province_18 =
    codes "180000"
    ∷ codes "180100"
    ∷ codes "180101"
    ∷ codes "180102"
    ∷ codes "180103"
    ∷ codes "180200"
    ∷ codes "180201"
    ∷ codes "180202"
    ∷ codes "180300"
    ∷ codes "180301"
    ∷ codes "180400"
    ∷ codes "180401"
    ∷ codes "180500"
    ∷ codes "180501"
    ∷ codes "180502"
    ∷ codes "180600"
    ∷ codes "180601"
    ∷ codes "180602"
    ∷ codes "180603"
    ∷ codes "180604"
    ∷ codes "180700"
    ∷ codes "180701"
    ∷ codes "180702"
    ∷ codes "180703"
    ∷ codes "180800"
    ∷ codes "180801"
    ∷ codes "180802"
    ∷ codes "180803"
    ∷ codes "180804"
    ∷ codes "180900"
    ∷ codes "180901"
    ∷ []

province_19 : List Text
province_19 =
    codes "190000"
    ∷ codes "190100"
    ∷ codes "190101"
    ∷ codes "190102"
    ∷ codes "190200"
    ∷ codes "190201"
    ∷ codes "190202"
    ∷ codes "190300"
    ∷ codes "190301"
    ∷ []

province_20 : List Text
province_20 =
    codes "200000"
    ∷ codes "200100"
    ∷ codes "200101"
    ∷ codes "200102"
    ∷ codes "200103"
    ∷ codes "200104"
    ∷ codes "200200"
    ∷ codes "200201"
    ∷ codes "200300"
    ∷ codes "200301"
    ∷ []

province_21 : List Text
province_21 =
    codes "210000"
    ∷ codes "210100"
    ∷ codes "210101"
    ∷ codes "210102"
    ∷ codes "210103"
    ∷ codes "210200"
    ∷ codes "210201"
    ∷ codes "210300"
    ∷ codes "210301"
    ∷ codes "210302"
    ∷ codes "210303"
    ∷ codes "210400"
    ∷ codes "210401"
    ∷ codes "210402"
    ∷ codes "210500"
    ∷ codes "210501"
    ∷ codes "210502"
    ∷ codes "210503"
    ∷ codes "210504"
    ∷ codes "210600"
    ∷ codes "210601"
    ∷ codes "210602"
    ∷ codes "210700"
    ∷ codes "210701"
    ∷ codes "210800"
    ∷ codes "210801"
    ∷ []

province_22 : List Text
province_22 =
    codes "220000"
    ∷ codes "220100"
    ∷ codes "220101"
    ∷ codes "220102"
    ∷ codes "220103"
    ∷ codes "220104"
    ∷ codes "220105"
    ∷ codes "220106"
    ∷ codes "220107"
    ∷ codes "220108"
    ∷ codes "220109"
    ∷ codes "220110"
    ∷ codes "220111"
    ∷ codes "220200"
    ∷ codes "220201"
    ∷ codes "220202"
    ∷ codes "220203"
    ∷ codes "220300"
    ∷ codes "220301"
    ∷ codes "220302"
    ∷ codes "220303"
    ∷ codes "220400"
    ∷ codes "220401"
    ∷ codes "220402"
    ∷ codes "220500"
    ∷ codes "220501"
    ∷ codes "220502"
    ∷ codes "220503"
    ∷ codes "220600"
    ∷ codes "220601"
    ∷ codes "220602"
    ∷ []

province_23 : List Text
province_23 =
    codes "230000"
    ∷ codes "230100"
    ∷ codes "230101"
    ∷ codes "230200"
    ∷ codes "230201"
    ∷ codes "230202"
    ∷ codes "230203"
    ∷ codes "230300"
    ∷ codes "230301"
    ∷ codes "230400"
    ∷ codes "230401"
    ∷ codes "230500"
    ∷ codes "230501"
    ∷ codes "230600"
    ∷ codes "230601"
    ∷ []

province_24 : List Text
province_24 =
    codes "240000"
    ∷ codes "240100"
    ∷ codes "240101"
    ∷ codes "240102"
    ∷ codes "240103"
    ∷ codes "240104"
    ∷ codes "240105"
    ∷ codes "240106"
    ∷ codes "240200"
    ∷ codes "240201"
    ∷ codes "240202"
    ∷ codes "240300"
    ∷ codes "240301"
    ∷ codes "240400"
    ∷ codes "240401"
    ∷ codes "240402"
    ∷ codes "240403"
    ∷ codes "240404"
    ∷ []

province_25 : List Text
province_25 =
    codes "250000"
    ∷ codes "250100"
    ∷ codes "250101"
    ∷ codes "250102"
    ∷ codes "250104"
    ∷ codes "250105"
    ∷ codes "250106"
    ∷ codes "250107"
    ∷ codes "250200"
    ∷ codes "250201"
    ∷ codes "250300"
    ∷ codes "250301"
    ∷ codes "250302"
    ∷ codes "250303"
    ∷ codes "250400"
    ∷ codes "250401"
    ∷ codes "250402"
    ∷ codes "250500"
    ∷ codes "250501"
    ∷ codes "250502"
    ∷ codes "250503"
    ∷ codes "250504"
    ∷ codes "250600"
    ∷ codes "250601"
    ∷ codes "250602"
    ∷ codes "250700"
    ∷ codes "250701"
    ∷ codes "250702"
    ∷ codes "250703"
    ∷ codes "250800"
    ∷ codes "250801"
    ∷ codes "250802"
    ∷ codes "250803"
    ∷ codes "250900"
    ∷ codes "250901"
    ∷ codes "251000"
    ∷ codes "251001"
    ∷ []

province_26 : List Text
province_26 =
    codes "260000"
    ∷ codes "260100"
    ∷ codes "260101"
    ∷ codes "260200"
    ∷ codes "260201"
    ∷ codes "260300"
    ∷ codes "260301"
    ∷ []

province_27 : List Text
province_27 =
    codes "270000"
    ∷ codes "270100"
    ∷ codes "270101"
    ∷ codes "270102"
    ∷ codes "270103"
    ∷ codes "270104"
    ∷ codes "270200"
    ∷ codes "270201"
    ∷ codes "270202"
    ∷ codes "270203"
    ∷ codes "270204"
    ∷ codes "270205"
    ∷ codes "270300"
    ∷ codes "270301"
    ∷ codes "270302"
    ∷ codes "270303"
    ∷ codes "270304"
    ∷ []

province_28 : List Text
province_28 =
    codes "280000"
    ∷ codes "280100"
    ∷ codes "280101"
    ∷ codes "280102"
    ∷ codes "280103"
    ∷ codes "280104"
    ∷ codes "280105"
    ∷ codes "280106"
    ∷ codes "280200"
    ∷ codes "280201"
    ∷ codes "280300"
    ∷ codes "280301"
    ∷ codes "280302"
    ∷ codes "280303"
    ∷ []

province_29 : List Text
province_29 =
    codes "290000"
    ∷ codes "290100"
    ∷ codes "290101"
    ∷ codes "290102"
    ∷ codes "290103"
    ∷ codes "290104"
    ∷ codes "290200"
    ∷ codes "290201"
    ∷ codes "290300"
    ∷ codes "290301"
    ∷ codes "290302"
    ∷ codes "290303"
    ∷ codes "290400"
    ∷ codes "290402"
    ∷ codes "290403"
    ∷ codes "290500"
    ∷ codes "290501"
    ∷ []

province_30 : List Text
province_30 =
    codes "300000"
    ∷ codes "300100"
    ∷ codes "300101"
    ∷ codes "300102"
    ∷ codes "300103"
    ∷ codes "300104"
    ∷ codes "300200"
    ∷ codes "300201"
    ∷ codes "300202"
    ∷ codes "300300"
    ∷ codes "300301"
    ∷ []

province_31 : List Text
province_31 =
    codes "310000"
    ∷ codes "310100"
    ∷ codes "310101"
    ∷ codes "310102"
    ∷ codes "310103"
    ∷ codes "310104"
    ∷ codes "310105"
    ∷ codes "310200"
    ∷ codes "310201"
    ∷ codes "310300"
    ∷ codes "310301"
    ∷ []

province_32 : List Text
province_32 =
    codes "320000"
    ∷ codes "320100"
    ∷ codes "320101"
    ∷ codes "320102"
    ∷ codes "320200"
    ∷ codes "320201"
    ∷ codes "320300"
    ∷ codes "320301"
    ∷ codes "320302"
    ∷ codes "320400"
    ∷ codes "320401"
    ∷ codes "320402"
    ∷ codes "320500"
    ∷ codes "320501"
    ∷ codes "320502"
    ∷ codes "320600"
    ∷ codes "320601"
    ∷ codes "320602"
    ∷ codes "320603"
    ∷ codes "320700"
    ∷ codes "320701"
    ∷ codes "320702"
    ∷ codes "320703"
    ∷ []

-- `isValidProvinciaMunicipio`
unfoldable pub is_valid_provincia_municipio : Text → Bool
unfolding province_01 province_02 province_03 province_04 province_05 province_06 province_07
    province_08 province_09 province_10 province_11 province_12 province_13 province_14 province_15
    province_16 province_17 province_18 province_19 province_20 province_21 province_22 province_23
    province_24 province_25 province_26 province_27 province_28 province_29 province_30 province_31
    province_32
is_valid_provincia_municipio s =
    is_one_of province_01 s
    || is_one_of province_02 s
    || is_one_of province_03 s
    || is_one_of province_04 s
    || is_one_of province_05 s
    || is_one_of province_06 s
    || is_one_of province_07 s
    || is_one_of province_08 s
    || is_one_of province_09 s
    || is_one_of province_10 s
    || is_one_of province_11 s
    || is_one_of province_12 s
    || is_one_of province_13 s
    || is_one_of province_14 s
    || is_one_of province_15 s
    || is_one_of province_16 s
    || is_one_of province_17 s
    || is_one_of province_18 s
    || is_one_of province_19 s
    || is_one_of province_20 s
    || is_one_of province_21 s
    || is_one_of province_22 s
    || is_one_of province_23 s
    || is_one_of province_24 s
    || is_one_of province_25 s
    || is_one_of province_26 s
    || is_one_of province_27 s
    || is_one_of province_28 s
    || is_one_of province_29 s
    || is_one_of province_30 s
    || is_one_of province_31 s
    || is_one_of province_32 s
