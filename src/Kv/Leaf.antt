-- ===== src/Kv/Leaf.antt =====
-- kv.go: the text of a leaf, and the json tag of a field.
use traefik_kop.Prelude.{
  Bool, true, false, not, Option, none, some, List, [], ◌∷◌, ◌==◌, if◌then◌else◌,
}
use traefik_kop.Prelude.Result.{Result, ok, ◌>>=◌}
use traefik_kop.Text.{Str, str, str_eq, elem, split, trim}
use traefik_kop.Text.Decimal.{format_uint, format_int}
use traefik_kop.Int64.{pos, negsuc}
use traefik_kop.Kv.Value.{
  Prim, string, bool, int, uint, float, text, json, Kind, prim_kind, sized_kind, struct_kind,
  other_kind, FieldInfo, Value, invalid, nil_interface, nil_pointer, prim, marshaled, nil_map,
  map_of, nil_slice, slice, array, no_entry, no_elem,
}

-- `s, s != ""`; the second part of a leaf's text says whether there is something to write
abbrev pub nonempty : Str → Str × Bool
nonempty s = (s, not (str_eq s []))

unfoldable pub is_leaf_type : Value → Bool
is_leaf_type (prim p) = true
is_leaf_type (marshaled m k) = true
is_leaf_type _ = false

unfoldable pub format_prim : Prim → Str × Bool
format_prim (string s) = nonempty s
format_prim (bool true) = (str "true", true)
format_prim (bool false) = (str "false", true)
format_prim (int n) = (format_int n, true)
format_prim (uint n) = (format_uint n, true)
format_prim (float s zero?) = (s, true)

-- the JSON of a value that has no text marshaler: its string, or the bytes without the quotes
unfoldable pub json_text : Str × Option Str → Str × Bool
json_text (bytes, some s) = nonempty s
json_text (bytes, none) = nonempty (trim b'"' bytes)

unfoldable pub leaf_string : Value → Result (Str × Bool)
unfolding format_prim json_text
leaf_string (marshaled (text r) k) = do s ← r; ok (nonempty s)
leaf_string (marshaled (json r) k) = do b ← r; ok (json_text b)
leaf_string (prim p) = ok (format_prim p)
leaf_string _ = ok ([], false)

unfoldable pub is_empty_prim : Prim → Bool
is_empty_prim (string s) = str_eq s []
is_empty_prim (bool b) = not b
is_empty_prim (int (pos n)) = n == 0
is_empty_prim (int (negsuc n)) = false
is_empty_prim (uint n) = n == 0
is_empty_prim (float s zero?) = zero?

unfoldable pub is_empty_kind : Kind → Bool
unfolding is_empty_prim
is_empty_kind (prim_kind p) = is_empty_prim p
is_empty_kind (sized_kind n) = n == 0
is_empty_kind struct_kind = false
is_empty_kind other_kind = false

unfoldable pub is_empty_json_value : Value → Bool
unfolding is_empty_kind
is_empty_json_value invalid = true
is_empty_json_value (prim p) = is_empty_prim p
is_empty_json_value (marshaled m k) = is_empty_kind k
is_empty_json_value nil_interface = true
is_empty_json_value nil_pointer = true
is_empty_json_value nil_map = true
is_empty_json_value (map_of t no_entry) = true
is_empty_json_value nil_slice = true
is_empty_json_value (slice no_elem) = true
is_empty_json_value (array no_elem) = true
is_empty_json_value _ = false

-- the result of `jsonFieldName`
pub record FieldName : Type 0 where
  pub name : Str
  pub omit_empty : Bool
  pub skip : Bool

abbrev name_and_options : FieldInfo → List Str → FieldName
name_and_options f [] = record { name = f.name; omit_empty = false; skip = false }
name_and_options f (first ∷ options) = record {
  name = if str_eq first [] then f.name else first;
  omit_empty = elem (str "omitempty") options;
  skip = false;
}

unfoldable pub json_field_name : FieldInfo → FieldName
json_field_name f =
    if str_eq f.json (str "-")
    then record { name = []; omit_empty = false; skip = true }
    else name_and_options f (split b',' f.json)
