-- ===== src/Kv/Under.antt =====
-- Where the paths of a listing start: below the path of the value that is listed.
use traefik_kop.Prelude.{
  ℕ, suc, ◌≡◌, refl, sym, subst, Bool, true, false, ◌&&◌, [], ◌∷◌, ◌++◌, arith, if◌then◌else◌,
}
use mathlib.Core.List.{append_assoc}
use traefik_kop.Prelude.Result.{Result, ok, err, panic, ◌>>=◌}
use traefik_kop.Text.{Str, str, str_eq, has_prefix}
use traefik_kop.Text.Prefix.{has_prefix-weaken}
use traefik_kop.Text.Decimal.{format_uint}
use traefik_kop.Kv.Value.{
  string_key, other_key, Value, invalid, nil_interface, interface, nil_pointer, pointer, prim,
  marshaled, struct, nil_map, map_of, nil_slice, slice, array, other, Fields, no_field, field,
  Entries, no_entry, entry, Elems, no_elem, item, is_struct,
}
use traefik_kop.Kv.Leaf.{leaf_string, json_field_name}
use traefik_kop.Kv.Walk.{join_path, entry_name, walk_error}
use traefik_kop.Kv.Listing.{
  Listed, leaf_listed, mark_empty, join_listed, listing, listing_fields, listing_entries,
  listing_elems,
}

-- Every path of a listing starts with `p`.
abbrev pub Under : Str → Listed → Type 0
Under p [] = Unit
Under p ((q, s) ∷ l) = (has_prefix p q ≡ true) × Under p l

abbrev pub UnderResult : Str → Result Listed → Type 0
UnderResult p (ok l) = Under p l
UnderResult p (err e) = Unit
UnderResult p panic = Unit

pub Under-append : (p : Str) (l r : Listed) → Under p l → Under p r → Under p (l ++ r)
Under-append p [] r a b = b
Under-append p ((q, s) ∷ l) r a b = (a.0, Under-append p l r a.1 b)

pub Under-join :
    (p : Str) (l r : Result Listed)
    → UnderResult p l
    → UnderResult p r
    → UnderResult p (join_listed l r)
Under-join p (ok l) (ok r) a b = Under-append p l r a b
Under-join p (ok l) (err e) a b = tt
Under-join p (ok l) panic a b = tt
Under-join p (err e) r a b = tt
Under-join p panic r a b = tt

pub Under-weaken : (p q : Str) (l : Listed) → Under (p ++ q) l → Under p l
Under-weaken p q [] h = tt
Under-weaken p q ((k, s) ∷ l) h = (has_prefix-weaken p q k h.0, Under-weaken p q l h.1)

pub UnderResult-weaken : (p q : Str) (r : Result Listed) → UnderResult (p ++ q) r → UnderResult p r
UnderResult-weaken p q (ok l) h = Under-weaken p q l h
UnderResult-weaken p q (err e) h = tt
UnderResult-weaken p q panic h = tt

pub has_prefix_self : (p : Str) → has_prefix p p ≡ true
unfolding has_prefix
has_prefix_self [] = refl
has_prefix_self (c ∷ cs) = ground (arith, has_prefix_self cs)

pub Under-leaf :
    (path : Str) (s : Result (Str × Bool)) → UnderResult path (s >>= λ t. ok (leaf_listed path t))
unfolding leaf_listed
Under-leaf path (ok (s, true)) = (has_prefix_self path, tt)
Under-leaf path (ok (s, false)) = tt
Under-leaf path (err e) = tt
Under-leaf path panic = tt

pub Under-mark :
    (path : Str) (mark : Bool) (r : Result Listed)
    → UnderResult path r
    → UnderResult path (r >>= λ l. ok (mark_empty path mark l))
unfolding mark_empty
Under-mark path true (ok []) h = (has_prefix_self path, tt)
Under-mark path false (ok []) h = tt
Under-mark path true (ok (x ∷ l)) h = h
Under-mark path false (ok (x ∷ l)) h = h
Under-mark path mark (err e) h = tt
Under-mark path mark panic h = tt

pub Under-field :
    (path : Str) (skip embed : Bool) (le lc r : Result Listed)
    → UnderResult path le
    → UnderResult path lc
    → UnderResult path r
    → UnderResult path (if skip then r else join_listed (if embed then le else lc) r)
Under-field path true embed le lc r e c n = n
Under-field path false true le lc r e c n = Under-join path le r e n
Under-field path false false le lc r e c n = Under-join path lc r c n

mutual
  unfolding listing join_path

  Under-listing : (path : Str) (v : Value) (allow : Bool) → UnderResult path (listing path v allow)
  Under-listing path invalid allow = tt
  Under-listing path nil_interface allow = tt
  Under-listing path (interface v) allow = Under-listing path v allow
  Under-listing path nil_pointer allow = tt
  Under-listing path (pointer v) allow =
      Under-mark path (allow && is_struct v) (listing path v false) (Under-listing path v false)
  Under-listing path (prim p) allow = Under-leaf path (walk_error path (leaf_string (prim p)))
  Under-listing path (marshaled m k) allow =
      Under-leaf path (walk_error path (leaf_string (marshaled m k)))
  Under-listing path (struct fs) allow = Under-fields path fs
  Under-listing path nil_map allow = tt
  Under-listing path (map_of t no_entry) allow = tt
  Under-listing path (map_of string_key (entry k v es)) allow = Under-entries path (entry k v es)
  Under-listing path (map_of (other_key t) (entry k v es)) allow = tt
  Under-listing path nil_slice allow = tt
  Under-listing path (slice xs) allow = Under-elems path 0 xs
  Under-listing path (array xs) allow = Under-elems path 0 xs
  Under-listing path other allow = tt

  Under-fields : (path : Str) (fs : Fields) → UnderResult path (listing_fields path fs)
  Under-fields path no_field = tt
  Under-fields path (field f v fs) =
      Under-field path _ _ _ _ _ (Under-listing path v false)
        (UnderResult-weaken path _ _ (
          Under-listing (join_path path (json_field_name f).name) v
            (str_eq f.label (str "allowEmpty"))))
        (Under-fields path fs)

  Under-entries : (path : Str) (es : Entries) → UnderResult path (listing_entries path es)
  Under-entries path no_entry = tt
  Under-entries path (entry k v es) =
      Under-join path (listing (join_path path (entry_name path k)) v false)
        (listing_entries path es)
        (UnderResult-weaken path _ _ (Under-listing (join_path path (entry_name path k)) v false))
        (Under-entries path es)

  Under-elems : (path : Str) (i : ℕ) (xs : Elems) → UnderResult path (listing_elems path i xs)
  Under-elems path i no_elem = tt
  Under-elems path i (item v xs) =
      Under-join path (listing (join_path path (format_uint i)) v false)
        (listing_elems path (suc i) xs)
        (UnderResult-weaken path _ _ (Under-listing (join_path path (format_uint i)) v false))
        (Under-elems path (suc i) xs)

-- The configuration is a struct none of whose own fields is embedded.
abbrev pub IsNamed : Fields → Type 0
IsNamed no_field = Unit
IsNamed (field f v fs) = (f.anonymous ≡ false) × IsNamed fs

pub Under-named :
    (path : Str) (skip embed : Bool) (le lc r : Result Listed)
    → embed ≡ false
    → UnderResult path lc
    → UnderResult path r
    → UnderResult path (if skip then r else join_listed (if embed then le else lc) r)
Under-named path true embed le lc r e c n = n
Under-named path false true le lc r e c n = cc
Under-named path false false le lc r e c n = Under-join path lc r c n

pub Under_root :
    (path : Str) (fs : Fields)
    → IsNamed fs
    → UnderResult (path ++ b'/' ∷ []) (listing_fields path fs)
unfolding listing join_path
Under_root path no_field h = tt
Under_root path (field f v fs) h =
    let e : (f.anonymous && str_eq (json_field_name f).name f.name) ≡ false = rw h.0 in
    Under-named (path ++ b'/' ∷ []) _ _ (listing path v false) _ _ e
      (UnderResult-weaken (path ++ b'/' ∷ []) (json_field_name f).name _ (
        subst
          (λ q. UnderResult q (
            listing (join_path path (json_field_name f).name) v
              (str_eq f.label (str "allowEmpty"))))
          (sym (append_assoc path (b'/' ∷ []) (json_field_name f).name))
          (Under-listing (join_path path (json_field_name f).name) v
            (str_eq f.label (str "allowEmpty")))))
      (Under_root path fs h.1)
