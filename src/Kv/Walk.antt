-- ===== src/Kv/Walk.antt =====
-- kv.go: `Kv.add`, the recursive walk over a configuration value and `ConfigToKV`.
use traefik_kop.Prelude.{
  ℕ, suc, Bool, true, false, not, ◌&&◌, ◌||◌, List, [], ◌∷◌, ◌++◌, ◌==◌, if◌then◌else◌,
}
use traefik_kop.Prelude.Result.{Result, ok, err, panic, ◌>>=◌}
use traefik_kop.Text.{Str, str, str_eq, elem, has_prefix}
use traefik_kop.Text.Decimal.{format_uint}
use traefik_kop.Text.Dict.{Dict, insert}
use traefik_kop.Docker.Names.{strip_docker}
use traefik_kop.Kv.Value.{
  string_key, other_key, Value, invalid, nil_interface, interface, nil_pointer, pointer, prim,
  marshaled, struct, nil_map, map_of, nil_slice, slice, array, other, Fields, no_field, field,
  Entries, no_entry, entry, Elems, no_elem, item, is_struct,
}
use traefik_kop.Kv.Leaf.{leaf_string, is_empty_json_value, json_field_name}

pub record Kv : Type 0 where
  pub entries : Dict Str
  pub base : Str

unfoldable pub new_kv : Kv
new_kv = record { entries = []; base = [] }

-- `reKeyName`
unfoldable pub key_name_paths : List Str
key_name_paths =
    str "traefik/http/routers"
    ∷ str "traefik/http/services"
    ∷ str "traefik/http/middlewares"
    ∷ str "traefik/tcp/routers"
    ∷ str "traefik/tcp/services"
    ∷ str "traefik/tcp/middlewares"
    ∷ str "traefik/udp/routers"
    ∷ str "traefik/udp/services"
    ∷ str "traefik/udp/middlewares"
    ∷ []

unfoldable pub join_path : Str → Str → Str
join_path base child = base ++ (b'/' ∷ child)

-- The name under which the entry `key` of a map at `path` is written.
unfoldable pub entry_name : Str → Str → Str
entry_name path key = if elem path key_name_paths then strip_docker key else key

-- The error of `walkTypedValue` at a leaf that cannot be marshalled.
unfoldable pub walk_error {ℓ} : {A : Type ℓ} → Str → Result A → Result A
walk_error path (ok a) = ok a
walk_error path (err e) = err (str "walk " ++ (path ++ (str ": " ++ e)))
walk_error path panic = panic

unfoldable pub key_type_error : Str → Str → Str
key_type_error type path = str "unsupported map key type " ++ (type ++ (str " at " ++ path))

-- `directive` is what `fmt.Sprintf` writes for the rest of a format that begins with a `%`, when it
-- is given no arguments.
module _ (directive : Str → Str) where
  -- `fmt.Sprintf(format)`
  unfoldable pub sprintf : Str → Str
  sprintf [] = []
  sprintf (c ∷ cs) = if c == b'%' then directive (c ∷ cs) else c ∷ sprintf cs

  -- `kv.add(val, format)` with a string `val`
  unfoldable pub add : Str → Str → Kv → Kv
  add val format kv =
      if str_eq val []
      then kv
      else let key = sprintf (if str_eq kv.base [] then format else join_path kv.base format) in
        if has_prefix (str "traefik/tls/") key
        then kv
        else record kv { entries = insert key val kv.entries }

  -- a leaf with a text is added under its path
  unfoldable pub add_leaf : Str → Kv → Str × Bool → Kv × Bool
  add_leaf path kv (s, true) = (add s path kv, true)
  add_leaf path kv (s, false) = (kv, false)

  -- a pointer to a struct that added nothing stands as "true" where its tag allows that
  unfoldable pub add_empty : Str → Bool → Kv × Bool → Kv × Bool
  add_empty path mark (kv, added) =
      if not added && mark then (add (str "true") path kv, true) else (kv, added)

  unfoldable mutual
    pub walk_typed_value : Kv → Str → Value → Bool → Result (Kv × Bool)
    walk_typed_value kv path invalid allow = ok (kv, false)
    walk_typed_value kv path nil_interface allow = ok (kv, false)
    walk_typed_value kv path (interface v) allow = walk_typed_value kv path v allow
    walk_typed_value kv path nil_pointer allow = ok (kv, false)
    walk_typed_value kv path (pointer v) allow = do
      r ← walk_typed_value kv path v false
      ok (add_empty path (allow && is_struct v) r)
    walk_typed_value kv path (prim p) allow = do
      s ← walk_error path (leaf_string (prim p))
      ok (add_leaf path kv s)
    walk_typed_value kv path (marshaled m k) allow = do
      s ← walk_error path (leaf_string (marshaled m k))
      ok (add_leaf path kv s)
    walk_typed_value kv path (struct fs) allow = walk_struct_value kv path fs false
    walk_typed_value kv path nil_map allow = ok (kv, false)
    walk_typed_value kv path (map_of t no_entry) allow = ok (kv, false)
    walk_typed_value kv path (map_of string_key (entry k v es)) allow =
        walk_map_value kv path (entry k v es) false
    walk_typed_value kv path (map_of (other_key t) (entry k v es)) allow =
        err (key_type_error t path)
    walk_typed_value kv path nil_slice allow = ok (kv, false)
    walk_typed_value kv path (slice xs) allow = walk_slice_value kv path 0 xs false
    walk_typed_value kv path (array xs) allow = walk_slice_value kv path 0 xs false
    walk_typed_value kv path other allow = ok (kv, false)

    -- the fields from here on; `added_any` is what the fields before have added
    pub walk_struct_value : Kv → Str → Fields → Bool → Result (Kv × Bool)
    walk_struct_value kv path no_field added_any = ok (kv, added_any)
    walk_struct_value kv path (field f v fs) added_any =
        let name = json_field_name f in
        let next = walk_struct_value kv path fs added_any in
        let embedded = walk_typed_value kv path v false in
        let child =
          walk_typed_value kv (join_path path name.name) v (str_eq f.label (str "allowEmpty")) in
        if not f.exported || name.skip || (name.omit_empty && is_empty_json_value v)
        then next
        else (if f.anonymous && str_eq name.name f.name then embedded else child) >>= λ r.
            walk_struct_value r.0 path fs (added_any || r.1)

    pub walk_map_value : Kv → Str → Entries → Bool → Result (Kv × Bool)
    walk_map_value kv path no_entry added_any = ok (kv, added_any)
    walk_map_value kv path (entry k v es) added_any = do
      r ← walk_typed_value kv (join_path path (entry_name path k)) v false
      walk_map_value r.0 path es (added_any || r.1)

    -- the elements from index `i` on
    pub walk_slice_value : Kv → Str → ℕ → Elems → Bool → Result (Kv × Bool)
    walk_slice_value kv path i no_elem added_any = ok (kv, added_any)
    walk_slice_value kv path i (item v xs) added_any = do
      r ← walk_typed_value kv (join_path path (format_uint i)) v false
      walk_slice_value r.0 path (suc i) xs (added_any || r.1)

  -- `ConfigToKV` of a configuration with these fields
  unfoldable pub config_to_kv : Fields → Result (Dict Str)
  config_to_kv conf = elim (walk_typed_value new_kv (str "traefik") (struct conf) false) [
    | ok r ↦ ok r.0.entries
    | err e ↦ err (str "failed to create kv: " ++ e)
    | panic ↦ panic
  ]
