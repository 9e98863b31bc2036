-- ===== src/Xml/Anecf/Counted.antt =====
-- The groups and counts of `buildAnecfXml` of src/xml-builder/xml-builder.service.ts.
use ecf_api.Prelude.{ℕ, suc, ◌≡◌, true, List, [], ◌∷◌, ltb, ◌==◌, if◌then◌else◌}
use ecf_api.Prelude.Text.{Text, codes, text_eq}
use ecf_api.Xml.{Line, element, open_tag, close_tag}

-- How often a code stands in a list.
abbrev times : ℕ → List ℕ → ℕ
times k [] = 0
times k (c ∷ cs) = let rest = times k cs in if k == c then suc rest else rest

-- The codes ascend, above a bound.
abbrev pub Ascends : ℕ → List ℕ → Type 0
Ascends k [] = Unit
Ascends k (c ∷ cs) = (ltb k c ≡ true) × Ascends c cs

abbrev pub IsSorted : List ℕ → Type 0
IsSorted [] = Unit
IsSorted (c ∷ cs) = Ascends c cs

-- The texts of the elements of a name, in the order of the document.
abbrev pub texts_of : Text → List Line → List Text
texts_of name [] = []
texts_of name (element m v ∷ lines) =
    let rest = texts_of name lines in if text_eq m name then v ∷ rest else rest
texts_of name (open_tag _ ∷ lines) = texts_of name lines
texts_of name (close_tag _ ∷ lines) = texts_of name lines

abbrev pub counted : Text
counted = codes "CantidadeNCFAnulados"

abbrev pub typed : Text
typed = codes "TipoeCF"
