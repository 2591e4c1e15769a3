-- ===== src/Addresses/HostPort.antt =====
-- `net.SplitHostPort`, of which the program uses the port: an error gives the empty one.
use traefik_kop.Prelude.{
  ◌≡◌, Bool, true, false, not, ◌&&◌, ◌||◌, none, some, [], ◌∷◌, ◌++◌, ◌==◌, arith, if◌then◌else◌,
}
use traefik_kop.Text.{Str, str}
use traefik_kop.Text.Parts.{has_char, split_last, split_last-append}

-- does the text have the bracket that closes it at its end, and no bracket before?
unfoldable pub closes : Str → Bool
closes [] = false
closes (x ∷ []) = x == b']'
closes (x ∷ y ∷ rest) = not (x == b'[') && (not (x == b']') && closes (y ∷ rest))

-- a host before the last colon: in brackets, or without a colon or a bracket
unfoldable pub is_host : Str → Bool
is_host [] = true
is_host (x ∷ xs) =
    if x == b'['
    then closes xs
    else not (has_char b':' (x ∷ xs))
      && (not (has_char b'[' (x ∷ xs)) && not (has_char b']' (x ∷ xs)))

unfoldable pub port_of_address : Str → Str
port_of_address address = elim (split_last b':' address) [
  | none ↦ []
  | some parts ↦
      if is_host parts.0 && (not (has_char b'[' parts.1) && not (has_char b']' parts.1))
      then parts.1
      else []
]

-- The port of a host, a colon and a port is that port.
pub port_of_address-append :
    (host port : Str)
    → is_host host ≡ true
    → has_char b':' port || (has_char b'[' port || has_char b']' port) ≡ false
    → port_of_address (host ++ (str ":" ++ port)) ≡ port
unfolding port_of_address str
port_of_address-append host port h p =
    ground (arith, split_last-append b':' host port (ground arith))
