-- ===== src/Url/Escape.antt =====
-- `net/url`: which bytes each part of a URL escapes, `escape` and `unescape`.
use traefik_kop.Prelude.{
  ℕ, ◌+◌, ◌*◌, ◌-◌, ◌/◌, ◌%◌, Bool, true, false, not, ◌&&◌, ◌||◌, Option, none, some, [], ◌∷◌, ◌++◌,
  ◌==◌, leb, ltb, if◌then◌else◌,
}
use traefik_kop.Text.{Str, str}
use traefik_kop.Text.Parts.{has_char}

-- `encoding`, with the values that a URL without a query component needs
pub data Mode : Type 0 where
  in_path in_host in_zone in_user in_fragment : Mode

unfoldable pub is_letter : ℕ → Bool
is_letter c = (leb b'a' c && leb c b'z') || (leb b'A' c && leb c b'Z')

unfoldable pub is_digit : ℕ → Bool
is_digit c = leb b'0' c && leb c b'9'

unfoldable pub is_host_mode : Mode → Bool
is_host_mode in_host = true
is_host_mode in_zone = true
is_host_mode m = false

-- the reserved characters, by the part of the URL
unfoldable pub escapes_reserved : Mode → ℕ → Bool
escapes_reserved in_path c = c == b'?'
escapes_reserved in_user c = has_char c (str "@/?:")
escapes_reserved in_fragment c = false
escapes_reserved m c = true

unfoldable pub escapes_other : Mode → ℕ → Bool
escapes_other in_fragment c = not (has_char c (str "!()*"))
escapes_other m c = true

-- `shouldEscape`
unfoldable pub should_escape : Mode → ℕ → Bool
should_escape m c =
    if is_letter c || is_digit c
    then false
    else if is_host_mode m && has_char c (str "!$&'()*+,;=:[]<>\"")
    then false
    else if has_char c (str "-_.~")
    then false
    else if has_char c (str "$&+,/:;=?@")
    then escapes_reserved m c
    else escapes_other m c

-- one digit of `upperhex`
unfoldable pub hex_digit : ℕ → ℕ
hex_digit n = if ltb n 10 then b'0' + n else b'A' + (n - 10)

unfoldable pub escape : Mode → Str → Str
escape m [] = []
escape m (c ∷ cs) =
    (if should_escape m c then b'%' ∷ hex_digit (c / 16) ∷ hex_digit (c % 16) ∷ [] else c ∷ [])
    ++ escape m cs

-- `unhex`, where `ishex`
unfoldable pub unhex : ℕ → Option ℕ
unhex c =
    if is_digit c
    then some (c - b'0')
    else if leb b'a' c && leb c b'f'
    then some (c - b'a' + 10)
    else if leb b'A' c && leb c b'F'
    then some (c - b'A' + 10)
    else none

-- may the two digits be escaped in a part of this kind?
unfoldable pub may_escape : Mode → ℕ → ℕ → Bool
may_escape in_host a b = not (ltb a 8) || ((a == 2) && (b == 5))
may_escape in_zone a b =
    ((a == 2) && (b == 5)) || ((a * 16 + b) == b' ') || not (should_escape in_host (a * 16 + b))
may_escape m a b = true

-- the byte of two hexadecimal digits
unfoldable pub escaped : Mode → Option ℕ → Option ℕ → Option ℕ
escaped m none b = none
escaped m (some a) none = none
escaped m (some a) (some b) = if may_escape m a b then some (a * 16 + b) else none

unfoldable pub cons_some : Option ℕ → Option Str → Option Str
cons_some none rest = none
cons_some (some c) none = none
cons_some (some c) (some rest) = some (c ∷ rest)

-- may the byte stand by itself in a part of this kind?
unfoldable pub may_stand : Mode → ℕ → Bool
may_stand m c = not (is_host_mode m && (ltb c 0x80 && should_escape m c))

-- `unescape`; nothing where it is an error
unfoldable pub unescape : Mode → Str → Option Str
unescape m [] = some []
unescape m (c ∷ []) =
    if c == b'%' then none else cons_some (if may_stand m c then some c else none) (some [])
unescape m (c ∷ a ∷ []) =
    let rest = unescape m (a ∷ []) in
    if c == b'%' then none else cons_some (if may_stand m c then some c else none) rest
unescape m (c ∷ a ∷ b ∷ cs) =
    let rest = unescape m cs in
    let next = unescape m (a ∷ b ∷ cs) in
    if c == b'%'
    then cons_some (escaped m (unhex a) (unhex b)) rest
    else cons_some (if may_stand m c then some c else none) next

-- `validEncoded`
unfoldable pub is_valid_encoded : Mode → Str → Bool
is_valid_encoded m [] = true
is_valid_encoded m (c ∷ cs) =
    (has_char c (str "!$&'()*+,;=:@[]%") || not (should_escape m c)) && is_valid_encoded m cs
