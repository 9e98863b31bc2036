-- ===== src/Xml/Anecf.antt =====
-- `buildAnecfXml` of src/xml-builder/xml-builder.service.ts: the document of an annulment.
pub mod Counted
use ecf_api.Prelude.{
  ℕ, ◌+◌, ◌-◌, ◌*◌, Bool, true, false, List, [], ◌∷◌, ◌++◌, Option, none, some, ltb, ◌==◌,
  if◌then◌else◌,
}
use ecf_api.Prelude.Text.{Text, codes, to_string}
use ecf_api.Prelude.Rows.{find_many}
use ecf_api.Xml.{Line, text_line, raw_line, open_tag, close_tag, for_each}

-- An entry of `sequences`, with what `parseInt` makes of its type and of its two numbers.
pub record AnecfRange : Type 0 where
  pub encf_desde : Text
  pub encf_hasta : Text
  pub type_code : ℕ
  pub from_num : ℕ
  pub to_num : ℕ

-- `toNum - fromNum + 1`, for a range that does not end before it begins.
abbrev pub range_count : AnecfRange → ℕ
range_count r = r.to_num + 1 - r.from_num

-- The keys of `byType`, in ascending order.
unfoldable pub insert_code : ℕ → List ℕ → List ℕ
insert_code k [] = k ∷ []
insert_code k (c ∷ cs) =
    let rest = insert_code k cs in
    if k == c then c ∷ cs else if ltb k c then k ∷ c ∷ cs else c ∷ rest

unfoldable pub codes_of : List AnecfRange → List ℕ
codes_of [] = []
codes_of (r ∷ ranges) = insert_code r.type_code (codes_of ranges)

abbrev pub is_of_type : ℕ → AnecfRange → Bool
is_of_type k r = r.type_code == k

abbrev pub sum_counts : List AnecfRange → ℕ
sum_counts [] = 0
sum_counts (r ∷ ranges) = range_count r + sum_counts ranges

-- The total of the ranges of one type.
unfoldable pub type_total : ℕ → List AnecfRange → ℕ
type_total k ranges = sum_counts (find_many (is_of_type k) ranges)

unfoldable pub range_lines : AnecfRange → List Line
range_lines r =
    open_tag (codes "Secuencias")
    ∷ ((text_line (codes "SecuenciaeNCFDesde") r.encf_desde
          ++ text_line (codes "SecuenciaeNCFHasta") r.encf_hasta)
        ++ close_tag (codes "Secuencias") ∷ [])

unfoldable pub annulment_lines : List AnecfRange → ℕ → ℕ → List Line
annulment_lines ranges line k =
    open_tag (codes "Anulacion")
    ∷ ((raw_line (codes "NoLinea") (to_string line)
          ++ raw_line (codes "TipoeCF") (to_string k)
          ++ (open_tag (codes "TablaRangoSecuenciasAnuladaseNCF")
              ∷ ((for_each range_lines (find_many (is_of_type k) ranges))
                  ++ close_tag (codes "TablaRangoSecuenciasAnuladaseNCF") ∷ []))
          ++ raw_line (codes "CantidadeNCFAnulados") (to_string (type_total k ranges)))
        ++ close_tag (codes "Anulacion") ∷ [])

unfoldable pub annulments_from : List AnecfRange → ℕ → List ℕ → List Line
annulments_from ranges line [] = []
annulments_from ranges line (k ∷ ks) =
    annulment_lines ranges line k ++ annulments_from ranges (line + 1) ks

-- The sum over all groups: `[...byType.values()].flat()`.
unfoldable pub sum_types : List AnecfRange → List ℕ → ℕ
sum_types ranges [] = 0
sum_types ranges (k ∷ ks) = type_total k ranges + sum_types ranges ks

abbrev pub total_anulados : List AnecfRange → ℕ
total_anulados ranges = sum_types ranges (codes_of ranges)

-- `buildAnecfXml`; `now` is the printed time.
unfoldable pub build_anecf_xml : Text → Text → List AnecfRange → List Line
build_anecf_xml now rnc ranges =
    open_tag (codes "ANECF")
    ∷ (((open_tag (codes "Encabezado")
            ∷ ((raw_line (codes "Version") (codes "1.0")
                  ++ text_line (codes "RncEmisor") rnc
                  ++ raw_line (codes "CantidadeNCFAnulados") (to_string (total_anulados ranges))
                  ++ raw_line (codes "FechaHoraAnulacioneNCF") now)
                ++ close_tag (codes "Encabezado") ∷ []))
          ++ (open_tag (codes "DetalleAnulacion")
              ∷ ((annulments_from ranges 1 (codes_of ranges))
                  ++ close_tag (codes "DetalleAnulacion") ∷ [])))
        ++ close_tag (codes "ANECF") ∷ [])
