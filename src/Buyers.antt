-- ===== src/Buyers.antt =====
-- The type of document of a buyer: src/buyers/ecf-type.resolver.ts. `normalize`, which lowers the case
-- and takes accents away, is a parameter, as it ends in the Unicode tables of the language.
pub mod Priority
use ecf_api.Prelude.{
  ℕ, Bool, true, false, ◌&&◌, ◌||◌, not, List, [], ◌∷◌, Option, none, some, ◌==◌, length,
  if◌then◌else◌,
}
use ecf_api.Prelude.Text.{Text, codes, starts_with}
use ecf_api.Prelude.Rows.{find_first}
use ecf_api.Types.{EcfType, e31, e32, e44, e45}

-- `buyerType`
pub data BuyerType : Type 0 where
  gobierno regimen_especial contribuyente consumidor_final : BuyerType

pub record EcfTypeResolution : Type 0 where
  pub buyer_type : BuyerType
  pub ecf_type : EcfType

-- The fields of `DgiiTaxpayerInfo` that the rules read.
pub record TaxpayerInfo : Type 0 where
  pub name : Text
  pub category : Text

-- `s.includes(t)`
unfoldable pub contains : Text → Text → Bool
contains t [] = starts_with t []
contains t (c ∷ s) = starts_with t (c ∷ s) || contains t s

unfoldable pub contains_any : List Text → Text → Bool
contains_any [] s = false
contains_any (t ∷ ts) s = contains t s || contains_any ts s

-- `GOV_KEYWORDS`
unfoldable pub gov_keywords : List Text
gov_keywords =
    codes "ministerio"
    ∷ codes "ayuntamiento"
    ∷ codes "gobierno"
    ∷ codes "senado"
    ∷ codes "camara de diputados"
    ∷ codes "poder judicial"
    ∷ codes "poder ejecutivo"
    ∷ codes "procuraduria"
    ∷ codes "contraloria"
    ∷ codes "tesoreria nacional"
    ∷ codes "superintendencia"
    ∷ codes "tribunal"
    ∷ codes "policia nacional"
    ∷ codes "fuerzas armadas"
    ∷ codes "direccion general"
    ∷ codes "instituto nacional"
    ∷ codes "junta central"
    ∷ codes "consejo nacional"
    ∷ codes "oficina nacional"
    ∷ codes "cuerpo de bomberos"
    ∷ codes "defensa civil"
    ∷ codes "banco central"
    ∷ codes "junta de aviacion"
    ∷ codes "autoridad portuaria"
    ∷ []

-- `SPECIAL_CATEGORIES`
unfoldable pub special_categories : List Text
special_categories =
    codes "zona franca"
    ∷ codes "desarrollo fronterizo"
    ∷ codes "turismo"
    ∷ codes "proindustria"
    ∷ codes "energia renovable"
    ∷ codes "cinematografica"
    ∷ codes "exportacion"
    ∷ codes "cadena textil"
    ∷ codes "sin fines de lucro"
    ∷ codes "educacion"
    ∷ codes "salud"
    ∷ codes "zona franca industrial"
    ∷ codes "zona franca comercial"
    ∷ codes "zona franca especial"
    ∷ []

pub record DetectionRule : Type 0 where
  pub test : Text → TaxpayerInfo → Bool
  pub result : EcfTypeResolution

abbrev pub government : EcfTypeResolution
government = record { buyer_type = gobierno; ecf_type = e45 }

abbrev pub special_regime : EcfTypeResolution
special_regime = record { buyer_type = regimen_especial; ecf_type = e44 }

-- The tests of the three rules.
unfoldable pub gobierno_by_rnc : Text → TaxpayerInfo → Bool
gobierno_by_rnc rnc dgii = length rnc == 9 && starts_with (codes "4") rnc

unfoldable pub gobierno_by_name : (Text → Text) → Text → TaxpayerInfo → Bool
gobierno_by_name normalize rnc dgii = contains_any gov_keywords (normalize dgii.name)

unfoldable pub regimen_especial_test : (Text → Text) → Text → TaxpayerInfo → Bool
regimen_especial_test normalize rnc dgii =
    not (length (normalize dgii.category) == 0)
    && contains_any special_categories (normalize dgii.category)

-- `DETECTION_RULES`
unfoldable pub detection_rules : (Text → Text) → List DetectionRule
detection_rules normalize =
    record { test = gobierno_by_rnc; result = government }
    ∷ record { test = gobierno_by_name normalize; result = government }
    ∷ record { test = regimen_especial_test normalize; result = special_regime }
    ∷ []

-- `resolveEcfType`
unfoldable pub resolve_ecf_type : (Text → Text) → Text → TaxpayerInfo → EcfTypeResolution
resolve_ecf_type normalize rnc dgii =
    elim (find_first (λ rule. rule.test rnc dgii) (detection_rules normalize)) [
      | some rule ↦ rule.result
      | none ↦ record { buyer_type = contribuyente; ecf_type = e31 }
    ]

-- `resolveConsumidorFinal`
abbrev pub resolve_consumidor_final : EcfTypeResolution
resolve_consumidor_final = record { buyer_type = consumidor_final; ecf_type = e32 }
