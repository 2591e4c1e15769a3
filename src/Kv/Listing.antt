-- ===== src/Kv/Listing.antt =====
-- The leaves of a value in the order of the walk, each with its path: a description of what kv.go
-- writes that knows nothing of the map it is collected in.
use mathlib.Core.Bool.{◌||◌}
use traefik_kop.Prelude.{
  ℕ, suc, ◌≡◌, refl, ◌∙◌, Bool, true, false, not, ◌&&◌, List, [], ◌∷◌, ◌++◌, arith, if◌then◌else◌,
}
use traefik_kop.Prelude.Result.{Result, ok, err, panic, ◌>>=◌}
use traefik_kop.Text.{Str, str, str_eq}
use traefik_kop.Text.Decimal.{format_uint}
use traefik_kop.Kv.Value.{
  string_key, other_key, Value, invalid, nil_interface, interface, nil_pointer, pointer, prim,
  marshaled, struct, nil_map, map_of, nil_slice, slice, array, other, Fields, no_field, field,
  Entries, no_entry, entry, Elems, no_elem, item, is_struct,
}
use traefik_kop.Kv.Leaf.{leaf_string, is_empty_json_value, json_field_name}
use traefik_kop.Kv.Walk.{
  Kv, join_path, entry_name, walk_error, key_type_error, add, add_leaf, add_empty, walk_typed_value,
  walk_struct_value, walk_map_value, walk_slice_value,
}

abbrev pub Listed : Type 0
Listed = List (Str × Str)

abbrev pub some_listed : Listed → Bool
some_listed [] = false
some_listed (x ∷ l) = true

unfoldable pub leaf_listed : Str → Str × Bool → Listed
leaf_listed path (s, true) = (path, s) ∷ []
leaf_listed path (s, false) = []

unfoldable pub mark_empty : Str → Bool → Listed → Listed
mark_empty path true [] = (path, str "true") ∷ []
mark_empty path false [] = []
mark_empty path mark (x ∷ l) = x ∷ l

abbrev pub join_listed : Result Listed → Result Listed → Result Listed
join_listed a b = a >>= λ l. b >>= λ r. ok (l ++ r)

unfoldable mutual
  pub listing : Str → Value → Bool → Result Listed
  listing path invalid allow = ok []
  listing path nil_interface allow = ok []
  listing path (interface v) allow = listing path v allow
  listing path nil_pointer allow = ok []
  listing path (pointer v) allow =
      listing path v false >>= λ l. ok (mark_empty path (allow && is_struct v) l)
  listing path (prim p) allow =
      walk_error path (leaf_string (prim p)) >>= λ s. ok (leaf_listed path s)
  listing path (marshaled m k) allow =
      walk_error path (leaf_string (marshaled m k)) >>= λ s. ok (leaf_listed path s)
  listing path (struct fs) allow = listing_fields path fs
  listing path nil_map allow = ok []
  listing path (map_of t no_entry) allow = ok []
  listing path (map_of string_key (entry k v es)) allow = listing_entries path (entry k v es)
  listing path (map_of (other_key t) (entry k v es)) allow = err (key_type_error t path)
  listing path nil_slice allow = ok []
  listing path (slice xs) allow = listing_elems path 0 xs
  listing path (array xs) allow = listing_elems path 0 xs
  listing path other allow = ok []

  pub listing_fields : Str → Fields → Result Listed
  listing_fields path no_field = ok []
  listing_fields path (field f v fs) =
      let name = json_field_name f in
      let next = listing_fields path fs in
      let embedded = listing path v false in
      let child = listing (join_path path name.name) v (str_eq f.label (str "allowEmpty")) in
      if not f.exported || name.skip || (name.omit_empty && is_empty_json_value v)
      then next
      else join_listed (if f.anonymous && str_eq name.name f.name then embedded else child) next

  pub listing_entries : Str → Entries → Result Listed
  listing_entries path no_entry = ok []
  listing_entries path (entry k v es) =
      join_listed (listing (join_path path (entry_name path k)) v false) (listing_entries path es)

  pub listing_elems : Str → ℕ → Elems → Result Listed
  listing_elems path i no_elem = ok []
  listing_elems path i (item v xs) =
      join_listed (listing (join_path path (format_uint i)) v false) (listing_elems path (suc i) xs)

module _ (directive : Str → Str) where
  -- every listed leaf added in turn
  unfoldable pub add_all : Listed → Kv → Kv
  add_all [] kv = kv
  add_all ((path, s) ∷ l) kv = add_all l (add directive s path kv)

  add_all-append : (l r : Listed) (kv : Kv) → add_all (l ++ r) kv ≡ add_all r (add_all l kv)
  unfolding add_all
  add_all-append [] r kv = refl
  add_all-append ((path, s) ∷ l) r kv = add_all-append l r (add directive s path kv)

  -- what the walk returns for a listing: the map with all of it, and whether there was any
  abbrev pub collect : Kv → Bool → Result Listed → Result (Kv × Bool)
  collect kv added l = l >>= λ l. ok (add_all l kv, added || some_listed l)

  or_false : (b : Bool) → (b || false) ≡ b
  or_false true = refl
  or_false false = refl

  some_listed-append :
      (b : Bool) (l r : Listed)
      → (b || some_listed (l ++ r)) ≡ ((b || some_listed l) || some_listed r)
  some_listed-append b [] r = ground arith
  some_listed-append b (x ∷ l) r = ground arith

  -- collecting one listing and then the next is collecting both
  collect_join :
      (kv : Kv) (b : Bool) (l r : Result Listed) (next : Kv → Bool → Result (Kv × Bool))
      → ((kv' : Kv) (b' : Bool) → next kv' b' ≡ collect kv' b' r)
      → (collect kv false l >>= λ c. next c.0 (b || c.1)) ≡ collect kv b (join_listed l r)
  collect_join kv b (err e) r next h = refl
  collect_join kv b panic r next h = refl
  collect_join kv b (ok l) (err e) next h = h _ _
  collect_join kv b (ok l) panic next h = h _ _
  collect_join kv b (ok l) (ok r) next h =
      h _ _ ∙ cc (add_all-append l r kv, some_listed-append b l r)

  leaf_collect :
      (kv : Kv) (path : Str) (s : Result (Str × Bool))
      → (s >>= λ t. ok (add_leaf directive path kv t))
        ≡ collect kv false (s >>= λ t. ok (leaf_listed path t))
  unfolding add_leaf leaf_listed add_all
  leaf_collect kv path (ok (s, true)) = refl
  leaf_collect kv path (ok (s, false)) = refl
  leaf_collect kv path (err e) = refl
  leaf_collect kv path panic = refl

  empty_collect :
      (kv : Kv) (path : Str) (mark : Bool) (l : Result Listed)
      → (collect kv false l >>= λ r. ok (add_empty directive path mark r))
        ≡ collect kv false (l >>= λ l. ok (mark_empty path mark l))
  unfolding add_empty mark_empty add_all
  empty_collect kv path true (ok []) = refl
  empty_collect kv path false (ok []) = refl
  empty_collect kv path true (ok (x ∷ l)) = refl
  empty_collect kv path false (ok (x ∷ l)) = refl
  empty_collect kv path mark (err e) = refl
  empty_collect kv path mark panic = refl

  -- a field that is skipped, embedded or walked under its own path
  field_collect :
      (skip embed : Bool) (kv : Kv) (b : Bool) (we wc : Result (Kv × Bool))
      (le lc r : Result Listed) (next : Kv → Bool → Result (Kv × Bool))
      → we ≡ collect kv false le
      → wc ≡ collect kv false lc
      → ((kv' : Kv) (b' : Bool) → next kv' b' ≡ collect kv' b' r)
      → (if skip then next kv b else (if embed then we else wc) >>= λ c. next c.0 (b || c.1))
        ≡ collect kv b (if skip then r else join_listed (if embed then le else lc) r)
  field_collect true embed kv b we wc le lc r next e c h = h kv b
  field_collect false true kv b we wc le lc r next e c h = rw e (collect_join kv b le r next h)
  field_collect false false kv b we wc le lc r next e c h = rw c (collect_join kv b lc r next h)

  mutual
    unfolding walk_typed_value listing add_all

    walk_lem :
        (kv : Kv) (path : Str) (v : Value) (allow : Bool)
        → walk_typed_value directive kv path v allow ≡ collect kv false (listing path v allow)
    walk_lem kv path invalid allow = refl
    walk_lem kv path nil_interface allow = refl
    walk_lem kv path (interface v) allow = walk_lem kv path v allow
    walk_lem kv path nil_pointer allow = refl
    walk_lem kv path (pointer v) allow =
        rw (walk_lem kv path v false)
          (empty_collect kv path (allow && is_struct v) (listing path v false))
    walk_lem kv path (prim p) allow = leaf_collect kv path (walk_error path (leaf_string (prim p)))
    walk_lem kv path (marshaled m k) allow =
        leaf_collect kv path (walk_error path (leaf_string (marshaled m k)))
    walk_lem kv path (struct fs) allow = walk_fields_lem kv path fs false
    walk_lem kv path nil_map allow = refl
    walk_lem kv path (map_of t no_entry) allow = refl
    walk_lem kv path (map_of string_key (entry k v es)) allow =
        walk_entries_lem kv path (entry k v es) false
    walk_lem kv path (map_of (other_key t) (entry k v es)) allow = refl
    walk_lem kv path nil_slice allow = refl
    walk_lem kv path (slice xs) allow = walk_elems_lem kv path 0 xs false
    walk_lem kv path (array xs) allow = walk_elems_lem kv path 0 xs false
    walk_lem kv path other allow = refl

    walk_fields_lem :
        (kv : Kv) (path : Str) (fs : Fields) (b : Bool)
        → walk_struct_value directive kv path fs b ≡ collect kv b (listing_fields path fs)
    walk_fields_lem kv path no_field b = rw or_false
    walk_fields_lem kv path (field f v fs) b =
        field_collect _ _ kv b _ _ _ _ (listing_fields path fs)
          (λ kv' b'. walk_struct_value directive kv' path fs b') (walk_lem kv path v false)
          (walk_lem kv (join_path path (json_field_name f).name) v
            (str_eq f.label (str "allowEmpty")))
          (λ kv' b'. walk_fields_lem kv' path fs b')

    walk_entries_lem :
        (kv : Kv) (path : Str) (es : Entries) (b : Bool)
        → walk_map_value directive kv path es b ≡ collect kv b (listing_entries path es)
    walk_entries_lem kv path no_entry b = rw or_false
    walk_entries_lem kv path (entry k v es) b =
        rw (walk_lem kv (join_path path (entry_name path k)) v false) (
          collect_join kv b (listing (join_path path (entry_name path k)) v false)
            (listing_entries path es) (λ kv' b'. walk_map_value directive kv' path es b')
            (λ kv' b'. walk_entries_lem kv' path es b'))

    walk_elems_lem :
        (kv : Kv) (path : Str) (i : ℕ) (xs : Elems) (b : Bool)
        → walk_slice_value directive kv path i xs b ≡ collect kv b (listing_elems path i xs)
    walk_elems_lem kv path i no_elem b = rw or_false
    walk_elems_lem kv path i (item v xs) b =
        rw (walk_lem kv (join_path path (format_uint i)) v false) (
          collect_join kv b (listing (join_path path (format_uint i)) v false)
            (listing_elems path (suc i) xs)
            (λ kv' b'. walk_slice_value directive kv' path (suc i) xs b')
            (λ kv' b'. walk_elems_lem kv' path (suc i) xs b'))

  -- The walk over any value adds exactly its listing, in order, to the map it was given, whatever
  -- that map holds, reports whether the listing has an entry, and fails exactly where the listing
  -- fails, with the same error.
  pub walk-eq-listing :
      (kv : Kv) (path : Str) (v : Value) (allow : Bool)
      → walk_typed_value directive kv path v allow
        ≡ (listing path v allow >>= λ l. ok (add_all l kv, some_listed l))
  walk-eq-listing kv path v allow = walk_lem kv path v allow
