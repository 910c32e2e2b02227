-- ===== src/Actions/DateFormat.antt =====
-- packages/go/actionruntime/datetime_format.go.
use nova2sonici_osapp.Common.{
  Bool, true, false, not, ◌&&◌, Option, none, some, List, [], ◌∷◌, ◌==◌, if◌then◌else◌, is_nil,
}
use nova2sonici_osapp.Common.Assoc.{Map, lookup, insert}
use nova2sonici_osapp.Common.Text.{Text, codes, contains_any}
use nova2sonici_osapp.Mcp.Types.{Value, str, obj, Fields, end, field, Result, text_result}
use nova2sonici_osapp.Actions.Types.{Host}

abbrev not_a_string : Text
not_a_string = codes "Deve ser uma string RFC3339, não objeto, número ou null."

abbrev not_rfc3339 : Text
not_rfc3339 = codes "Use data completa com ano, T, segundos e offset explícito (ou Z), sem frações."

abbrev instruction : Text
instruction =
    codes
      "Nenhuma ação executada. Converta os campos indicados para RFC3339 a partir dos dados do usuário e chame novamente a ferramenta com os argumentos corrigidos. O exemplo ilustra formato, não valores padrão. Se faltar ano, horário, duração ou fuso, pergunte ao usuário; não adivinhe. Não peça confirmação genérica para corrigir formatação e não anuncie sucesso."

unfoldable pub well_formed_time : Host → Text → Bool
well_formed_time h text = elim (h.parse_rfc3339 text) [
  | none ↦ false
  | some nanoseconds ↦ nanoseconds == 0 && not (contains_any text (codes ".,"))
]

-- One round of the loop over the fields: the errors with that of `name` added.
unfoldable pub check_field : Host → Map Text → Text → Map Text → Map Text
unfolding well_formed_time
check_field h values name errors = elim (lookup name values) [
  | none ↦ errors
  | some value ↦ elim (h.json.string_value value) [
    | none ↦ insert name not_a_string errors
    | some text ↦ if well_formed_time h text then errors else insert name not_rfc3339 errors
  ]
]

unfoldable pub check_fields : Host → Map Text → List Text → Map Text → Map Text
check_fields h values [] errors = errors
check_fields h values (name ∷ names) errors =
    check_fields h values names (check_field h values name errors)

text_fields : Map Text → Fields
text_fields [] = end
text_fields ((k, v) ∷ m) = field k (str v) (text_fields m)

format_report : Map Text → Value
unfolding text_fields
format_report errors = obj (
    field (codes "status") (str (codes "error")) (
      field (codes "code") (str (codes "invalid_datetime_format")) (
        field (codes "fields") (obj (text_fields errors)) (
          field (codes "expected_format") (str (codes "AAAA-MM-DDTHH:MM:SS±HH:MM (ou Z)")) (
            field (codes "example")
              (obj (
                field (codes "start") (str (codes "2026-09-18T10:00:00-03:00"))
                  (field (codes "end") (str (codes "2026-09-18T11:00:00-03:00")) end)))
              (field (codes "instruction") (str instruction) end))))))

unfoldable pub date_time_format_error : Host → Text → List Text → Option Result
unfolding check_fields format_report
date_time_format_error h args date_fields = elim (h.json.object_members args) [
  | none ↦ none
  | some values ↦
      let errors = check_fields h values date_fields [] in
      if is_nil errors then none else some (text_result h.json (format_report errors) true)
]
