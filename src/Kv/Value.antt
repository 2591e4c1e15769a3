-- ===== src/Kv/Value.antt =====
-- The Go values that kv.go meets by reflection: `reflect.Value` with the part of `reflect.Type`
-- that the walk reads (the kind, the tags of a field, the key type of a map).
use traefik_kop.Prelude.{ℕ, Bool, true, false, Option}
use traefik_kop.Prelude.Result.{Result}
use traefik_kop.Text.{Str}
use traefik_kop.Int64.{ℤ}

-- The kinds whose values are leaves. A float is the text that `strconv.FormatFloat(v, 'f', -1, 64)`
-- writes for it, and whether it is zero.
pub data Prim : Type 0 where
  string : Str → Prim
  bool : Bool → Prim
  int : ℤ → Prim
  uint : ℕ → Prim
  float : Str → Bool → Prim

-- What the value's own `MarshalText` returns, or `json.Marshal` of a value with a `MarshalJSON`:
-- the bytes, and the string that `json.Unmarshal` reads from them, if they are a JSON string.
pub data Marshaler : Type 0 where
  text : Result Str → Marshaler
  json : Result (Str × Option Str) → Marshaler

-- The kind under a marshaler; `sized` is an array, a map or a slice of that length.
pub data Kind : Type 0 where
  prim_kind : Prim → Kind
  sized_kind : ℕ → Kind
  struct_kind : Kind
  other_kind : Kind

-- `reflect.StructField`: `json` and `label` are the values of those tags, empty where absent.
pub record FieldInfo : Type 0 where
  pub name : Str
  pub exported : Bool
  pub json : Str
  pub label : Str
  pub anonymous : Bool

pub data KeyType : Type 0 where
  string_key : KeyType
  other_key : Str → KeyType

mutual
  -- `marshaled` is a value of a type that has a marshaler, itself or by its pointer; `other` is a
  -- channel, a function, a complex number or an unsafe pointer.
  pub data Value : Type 0 where
    invalid : Value
    nil_interface : Value
    interface : Value → Value
    nil_pointer : Value
    pointer : Value → Value
    prim : Prim → Value
    marshaled : Marshaler → Kind → Value
    struct : Fields → Value
    nil_map : Value
    map_of : KeyType → Entries → Value
    nil_slice : Value
    slice : Elems → Value
    array : Elems → Value
    other : Value

  pub data Fields : Type 0 where
    no_field : Fields
    field : FieldInfo → Value → Fields → Fields

  -- The entries of a map, in the order in which this range over it meets them.
  pub data Entries : Type 0 where
    no_entry : Entries
    entry : Str → Value → Entries → Entries

  pub data Elems : Type 0 where
    no_elem : Elems
    item : Value → Elems → Elems

-- `typ.Kind() == reflect.Struct`
unfoldable pub is_struct : Value → Bool
is_struct (struct fs) = true
is_struct (marshaled m struct_kind) = true
is_struct _ = false
