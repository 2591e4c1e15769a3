-- ===== src/Url.antt =====
-- `net/url`, of which `replaceIPs` uses `Parse`, `Port` and `String`. A URL is the list of its
-- bytes.
pub mod Escape
use traefik_kop.Prelude.{
  ℕ, Bool, true, false, not, ◌&&◌, ◌||◌, Option, none, some, List, [], ◌∷◌, ◌++◌, ◌==◌, leb, ltb,
  if◌then◌else◌,
}
use traefik_kop.Text.{Str, str, str_eq, has_prefix, to_lower}
use traefik_kop.Url.Escape.{
  Mode, in_host, in_zone, in_path, in_user, in_fragment, escape, unescape, is_valid_encoded,
  is_letter, is_digit,
}
use traefik_kop.Text.Parts.{has_char, cut, span, split_last}

-- `url.URL`; the user is a name with a password, where there is one
pub record Url : Type 0 where
  pub scheme : Str
  pub opaque : Str
  pub user : Option (Str × Option Str)
  pub host : Str
  pub path : Str
  pub raw_path : Str
  pub omit_host : Bool
  pub force_query : Bool
  pub raw_query : Str
  pub fragment : Str
  pub raw_fragment : Str

unfoldable pub no_url : Url
no_url = record {
  scheme = [];
  opaque = [];
  user = none;
  host = [];
  path = [];
  raw_path = [];
  omit_host = false;
  force_query = false;
  raw_query = [];
  fragment = [];
  raw_fragment = [];
}

-- may the character stand in a scheme after the first?
unfoldable pub is_scheme_char : ℕ → Bool
is_scheme_char c = is_letter c || is_digit c || has_char c (str "+-.")

-- the scheme before the first colon, and what follows
unfoldable pub scheme_parts : Str → Option (Str × Str)
scheme_parts [] = none
scheme_parts (c ∷ cs) =
    let rest = scheme_parts cs in
    if c == b':'
    then some ([], cs)
    else if is_scheme_char c
    then elim rest [ none ↦ none | some r ↦ some (c ∷ r.0, r.1) ]
    else none

-- `getScheme`
unfoldable pub get_scheme : Str → Option (Str × Str)
get_scheme [] = some ([], [])
get_scheme (c ∷ cs) =
    if c == b':'
    then none
    else if is_letter c
    then elim (scheme_parts (c ∷ cs)) [ none ↦ some ([], c ∷ cs) | some r ↦ some r ]
    else some ([], c ∷ cs)

unfoldable pub all_digits : Str → Bool
all_digits [] = true
all_digits (c ∷ cs) = is_digit c && all_digits cs

-- `validOptionalPort`
unfoldable pub is_optional_port : Str → Bool
is_optional_port [] = true
is_optional_port (c ∷ cs) = (c == b':') && all_digits cs

-- what stands before the first `%25`, and what begins with it
unfoldable pub zone_at : Str → Option (Str × Str)
zone_at [] = none
zone_at (c ∷ cs) =
    let rest = zone_at cs in
    if has_prefix (str "%25") (c ∷ cs)
    then some ([], c ∷ cs)
    else elim rest [ none ↦ none | some r ↦ some (c ∷ r.0, r.1) ]

infixl 5 ◌>>=◌ ◌>>◌
abbrev pub ◌>>=◌ : {A B : Type 0} → Option A → (A → Option B) → Option B
none >>= f = none
some a >>= f = f a

abbrev pub ◌>>◌ : {A B : Type 0} → Option A → Option B → Option B
m >> n = m >>= λ a. n

unfoldable pub guard : Bool → Option (Unit {0})
guard true = some tt
guard false = none

-- a host in brackets, before and after the last closing one
unfoldable pub bracketed_host : Str → Str → Option Str
bracketed_host before after = do
  guard (is_optional_port after)
  elim (zone_at before) [
    | none ↦ unescape in_host (before ++ (b']' ∷ after))
    | some parts ↦ unescape in_host parts.0 >>= λ a. unescape in_zone parts.1 >>= λ b.
        unescape in_host (b']' ∷ after) >>= λ c. some (a ++ (b ++ c))
  ]

-- what follows the last colon, where there is one, is a number
unfoldable pub is_numbered : Option (Str × Str) → Bool
is_numbered none = true
is_numbered (some parts) = all_digits parts.1

unfoldable pub named_host : Str → Option Str
named_host h = do guard (is_numbered (split_last b':' h)); unescape in_host h

-- `parseHost`
unfoldable pub parse_host : Str → Option Str
parse_host h =
    if has_prefix (str "[") h
    then elim (split_last b']' h) [ none ↦ none | some parts ↦ bracketed_host parts.0 parts.1 ]
    else named_host h

-- `validUserinfo`
unfoldable pub is_userinfo : Str → Bool
is_userinfo [] = true
is_userinfo (c ∷ cs) =
    (is_letter c || is_digit c || has_char c (str "-._:~!$&'()*+,;=%@")) && is_userinfo cs

-- the name and the password of a user
unfoldable pub parse_user : Str → Option (Str × Option Str)
parse_user info = do
  guard (is_userinfo info)
  if has_char b':' info
      then (unescape in_user (cut b':' info).0 >>= λ name.
          unescape in_user (cut b':' info).1 >>= λ password. some (name, some password))
      else (unescape in_user info >>= λ name. some (name, none))

unfoldable pub authority_at : Str → Option (Str × Str) → Option (Option (Str × Option Str) × Str)
authority_at authority none = parse_host authority >>= λ h. some (none, h)
authority_at authority (some parts) =
    parse_host parts.1 >>= λ h. parse_user parts.0 >>= λ user. some (some user, h)

-- `parseAuthority`: the user and the host
unfoldable pub parse_authority : Str → Option (Option (Str × Option Str) × Str)
parse_authority authority = authority_at authority (split_last b'@' authority)

-- `setPath` and `setFragment`: the decoded text, and the raw one where it is not the default
-- encoding
unfoldable pub decoded : Mode → Str → Option (Str × Str)
decoded m p = unescape m p >>= λ plain. some (plain, if str_eq p (escape m plain) then [] else p)

-- `stringContainsCTLByte`
unfoldable pub has_control : Str → Bool
has_control [] = false
has_control (c ∷ cs) = ltb c b' ' || (c == 0x7f) || has_control cs

-- the query is cut off; a `?` that ends the text is kept as `ForceQuery`
unfoldable pub cut_query : Url → Str → Url × Str
cut_query u rest =
    if str_eq (span b'?' rest).1 (str "?")
    then (record u { force_query = true }, (span b'?' rest).0)
    else (record u { raw_query = (cut b'?' rest).1 }, (cut b'?' rest).0)

unfoldable pub with_path : Url → Str → Option Url
with_path u rest = decoded in_path rest >>= λ p. some (record u { path = p.0; raw_path = p.1 })

-- `parse`, after the scheme and the query
unfoldable pub parse_rest : Url → Str → Option Url
parse_rest u rest =
    if not (has_prefix (str "/") rest) && not (str_eq u.scheme [])
    then some (record u { opaque = rest })
    else if not (has_prefix (str "/") rest) && has_char b':' (span b'/' rest).0
    then none
    else if (not (str_eq u.scheme []) || not (has_prefix (str "///") rest))
        && has_prefix (str "//") rest
    then (parse_authority (span b'/' (drop_two rest)).0 >>= λ a.
        with_path (record u { user = a.0; host = a.1 }) (span b'/' (drop_two rest)).1)
    else if not (str_eq u.scheme []) && has_prefix (str "/") rest
    then with_path (record u { omit_host = true }) rest
    else with_path u rest
  where
    drop_two : Str → Str
    drop_two [] = []
    drop_two (a ∷ []) = []
    drop_two (a ∷ b ∷ cs) = cs

unfoldable pub parse_without_fragment : Str → Option Url
parse_without_fragment raw = do
  guard (not (has_control raw))
  if str_eq raw (str "*")
      then some (record no_url { path = str "*" })
      else get_scheme raw >>= λ parts.
          let cut_off = cut_query (record no_url { scheme = to_lower (λ c. c) parts.0 }) parts.1 in
          parse_rest cut_off.0 cut_off.1

-- `Parse`; nothing where it returns an error
unfoldable pub parse : Str → Option Url
parse raw = parse_without_fragment (cut b'#' raw).0 >>= λ u.
    if str_eq (cut b'#' raw).1 []
    then some u
    else (decoded in_fragment (cut b'#' raw).1 >>= λ f.
        some (record u { fragment = f.0; raw_fragment = f.1 }))

unfoldable pub port_at : Option (Str × Str) → Str
port_at none = []
port_at (some parts) = if all_digits parts.1 then parts.1 else []

-- `Port`
unfoldable pub port_of : Url → Str
port_of u = port_at (split_last b':' u.host)

-- `EscapedPath` and `EscapedFragment`: the raw text where it encodes the plain one
unfoldable pub encoded : Mode → Str → Str → Str
encoded m plain raw =
    if not (str_eq raw []) && (is_valid_encoded m raw && is_some_of (unescape m raw) plain)
    then raw
    else if str_eq plain (str "*")
    then str "*"
    else escape m plain
  where
    is_some_of : Option Str → Str → Bool
    is_some_of none b = false
    is_some_of (some a) b = str_eq a b

-- `Userinfo.String`
unfoldable pub user_string : Str × Option Str → Str
user_string (name, none) = escape in_user name
user_string (name, some password) = escape in_user name ++ (b':' ∷ escape in_user password)

unfoldable pub user_prefix : Option (Str × Option Str) → Str
user_prefix none = []
user_prefix (some user) = user_string user ++ str "@"

unfoldable pub is_none : Option (Str × Option Str) → Bool
is_none none = true
is_none (some user) = false

-- the two slashes, the user and the host
unfoldable pub authority_string : Url → Str
authority_string u =
    if str_eq u.scheme [] && (str_eq u.host [] && is_none u.user)
    then []
    else if u.omit_host && (str_eq u.host [] && is_none u.user)
    then []
    else (if str_eq u.host [] && (str_eq u.path [] && is_none u.user) then [] else str "//")
      ++ (user_prefix u.user ++ escape in_host u.host)

-- what is put between the authority and the path
unfoldable pub before_path : Url → Str → Str → Str
before_path u written path =
    (if not (str_eq path []) && (not (has_prefix (str "/") path) && not (str_eq u.host []))
      then str "/"
      else [])
    ++ (if str_eq written [] && has_char b':' (span b'/' path).0 then str "./" else [])

unfoldable pub hierarchical : Url → Str
hierarchical u =
    let written = (if str_eq u.scheme [] then [] else u.scheme ++ str ":") ++ authority_string u in
    let path = encoded in_path u.path u.raw_path in written ++ (before_path u written path ++ path)

-- `String`
unfoldable pub url_string : Url → Str
url_string u =
    (if str_eq u.opaque []
      then hierarchical u
      else (if str_eq u.scheme [] then [] else u.scheme ++ str ":") ++ u.opaque)
    ++ ((if u.force_query || not (str_eq u.raw_query []) then b'?' ∷ u.raw_query else [])
        ++ (if str_eq u.fragment []
            then []
            else b'#' ∷ encoded in_fragment u.fragment u.raw_fragment))
