-- ===== src/Controller/Fields.antt =====
-- The list field of a multipart form: `parseStringArray` of src/modules/media/dto/upload-media.dto.ts.
-- `JSON.parse` is the language's, a parameter: the strings of an array, where the text is one.
use media_service.Base.{
  Option, none, some, List, [], ◌∷◌, map, Text, codes, trim, split, starts_with, filter,
  if◌then◌else◌,
}
use media_service.Media.Acl.{truthy}

-- A value as the form brings it; an array comes with its elements as strings.
pub data FieldValue : Type 0 where
  missing : FieldValue
  array : List Text → FieldValue
  text : Text → FieldValue
  other : FieldValue

-- No list, a list, or a value that is left for the validation to refuse.
pub data ParsedField : Type 0 where
  absent : ParsedField
  values : List Text → ParsedField
  refused : ParsedField

unfoldable pub json_values : Option (List Text) → ParsedField
json_values none = ParsedField.refused
json_values (some xs) = ParsedField.values xs

unfoldable pub csv_values : Text → List Text
csv_values trimmed = filter truthy (map trim (split b',' trimmed))

unfoldable pub parse_text : (Text → Option (List Text)) → Text → ParsedField
parse_text json trimmed =
    if starts_with trimmed (codes "[")
    then json_values (json trimmed)
    else ParsedField.values (csv_values trimmed)

-- `parseStringArray`
unfoldable pub parse_string_array : (Text → Option (List Text)) → FieldValue → ParsedField
parse_string_array json FieldValue.missing = ParsedField.absent
parse_string_array json (FieldValue.array xs) = ParsedField.values xs
parse_string_array json (FieldValue.text []) = ParsedField.absent
parse_string_array json (FieldValue.text (c ∷ s)) = parse_text json (trim (c ∷ s))
parse_string_array json FieldValue.other = ParsedField.refused
