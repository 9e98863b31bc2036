-- ===== src/Xml/Parties/Written.antt =====
-- Lemmas on the safety of `buildEmisor` and `buildComprador` of src/xml-builder/xml-builder.service.ts.
use ecf_api.Prelude.{List, [], ◌∷◌, Option, ℕ, not, ◌==◌, ◌&&◌, if_rule, includes}
use ecf_api.Prelude.Text.{Text, codes}
use ecf_api.Prelude.Results.{ok, err, and_then, Result}
use ecf_api.Xml.{Line, text_or}
use ecf_api.Validation.{is_given}
use ecf_api.Encf.{requires_buyer_rnc}
use ecf_api.Xml.Escape.{IsPlain}
use ecf_api.Xml.Safe.{IsSafe, safe, IsSafe-raw_line, IsSafe-nil}
use ecf_api.Xml.Parties.{
  EmitterData, BuyerInput, XmlError, check_place, phone_lines, emisor_names, emisor_contact,
  build_emisor, anonymous_buyer, delivery_lines, local_lines, foreign_lines, buyer_lines,
  checked_buyer, build_comprador,
}

-- A section that is built is safe.
abbrev pub SafeResult : Result XmlError (List Line) → Type 0
SafeResult (ok lines) = IsSafe lines
SafeResult (err _) = Unit

phone_lines-IsSafe : (phones : List Text) → IsSafe (phone_lines phones)
unfolding phone_lines
phone_lines-IsSafe [] = search safe depth 30 fits 3000
phone_lines-IsSafe (p ∷ phones) = search safe depth 30 fits 3000

emisor_names-IsSafe : (e : EmitterData) → IsSafe (emisor_names e)
unfolding emisor_names
emisor_names-IsSafe e = search safe depth 30 fits 3000

emisor_contact-IsSafe : (e : EmitterData) → IsSafe (emisor_contact e)
unfolding emisor_contact
emisor_contact-IsSafe e = search (safe, phone_lines-IsSafe) depth 30 fits 3000

delivery_lines-IsSafe : (b : BuyerInput) → IsSafe (delivery_lines b)
unfolding delivery_lines
delivery_lines-IsSafe b = search safe depth 30 fits 3000

local_lines-IsSafe : (type : ℕ) (b : BuyerInput) → IsSafe (local_lines type b)
unfolding local_lines
local_lines-IsSafe type b = search (safe, delivery_lines-IsSafe) depth 30 fits 3000

foreign_lines-IsSafe : (type : ℕ) (b : BuyerInput) → IsSafe (foreign_lines type b)
unfolding foreign_lines
foreign_lines-IsSafe type b = if_rule IsSafe (type == 47) (λ _. search safe) (λ _. search safe)

buyer_lines-IsSafe : (type : ℕ) (b : BuyerInput) → IsSafe (buyer_lines type b)
unfolding buyer_lines
buyer_lines-IsSafe type b =
    search (safe, local_lines-IsSafe, foreign_lines-IsSafe) depth 30 fits 3000

anonymous_buyer-IsSafe : (b : BuyerInput) → IsSafe (anonymous_buyer b)
unfolding anonymous_buyer
anonymous_buyer-IsSafe b = search safe

after_check :
    (r : Result XmlError (Unit {0})) (next : Unit {0} → Result XmlError (List Line))
    → ((u : Unit {0}) → SafeResult (next u))
    → SafeResult (and_then r next)
after_check (ok u) next h = h u
after_check (err e) next h = tt

checked_buyer-Safe : (type : ℕ) (b : BuyerInput) → SafeResult (checked_buyer type b)
unfolding checked_buyer
checked_buyer-Safe type b =
    if_rule SafeResult (type == 47) (λ _. buyer_lines-IsSafe type b)
      (λ _. after_check (check_place b.municipality (codes "Comprador.MunicipioComprador")) _ (λ _.
        after_check (check_place b.province (codes "Comprador.ProvinciaComprador")) _
          (λ _. buyer_lines-IsSafe type b)))

pub build_comprador-Safe : (type : ℕ) (b : BuyerInput) → SafeResult (build_comprador type b)
unfolding build_comprador
build_comprador-Safe type b =
    if_rule SafeResult (type == 43) (λ _. IsSafe-nil)
      (λ _.
        if_rule SafeResult (not (is_given b.rnc) && not (includes type requires_buyer_rnc))
          (λ _.
            if_rule SafeResult (type == 32) (λ _. anonymous_buyer-IsSafe b)
              (λ _.
                if_rule SafeResult (type == 47) (λ _. IsSafe-nil) (λ _. checked_buyer-Safe type b)))
          (λ _. checked_buyer-Safe type b))

-- The date of the document is the only text that `buildEmisor` writes as it is.
pub build_emisor-Safe :
    (today : Text) (e : EmitterData) (fecha_emision : Option Text)
    → IsPlain (text_or fecha_emision today)
    → SafeResult (build_emisor today e fecha_emision)
unfolding build_emisor
build_emisor-Safe today e fecha_emision plain =
    after_check (check_place e.municipality (codes "Emisor.Municipio")) _ (λ _.
      after_check (check_place e.province (codes "Emisor.Provincia")) _
        (λ _. search (safe, emisor_names-IsSafe, emisor_contact-IsSafe, IsSafe-raw_line)))
