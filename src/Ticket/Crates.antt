-- ===== src/Ticket/Crates.antt =====
-- What the ticket's compact form uses of other crates and of the standard library: hex, base45, UTF-8 and
-- the texts of socket addresses, with the documented round trip of each. A byte is a number.
use subportal.Prelude.{ℕ, ◌<◌, ◌^◌, String, ◌≡◌, Option, some, List, All, length}

-- `SocketAddr`: the octets of the address and the port, and in version 6 also the flow information and the
-- scope id.
pub data SocketAddr : Type 0 where
  v4 : (octets : List ℕ) (port : ℕ) → SocketAddr
  v6 : (octets : List ℕ) (port flowinfo scope_id : ℕ) → SocketAddr

abbrev pub IsBytes : List ℕ → Type 0
IsBytes bytes = All (λ b. b < 256) bytes

-- What a text can stand for: four or sixteen octets, a port of 16 bits, a scope id of 32 bits, as in
-- `[fe80::1%3]:443`, and no flow information.
abbrev pub IsAddr : SocketAddr → Type 0
IsAddr (v4 octets port) = IsBytes octets × (length octets ≡ 4) × (port < 65536)
IsAddr (v6 octets port flowinfo scope_id) =
    IsBytes octets × (length octets ≡ 16) × (port < 65536) × (flowinfo ≡ 0) × (scope_id < 2 ^ 32)

pub record Crates : Type 0 where
  pub hex_encode : List ℕ → String
  pub hex_decode : String → Option (List ℕ)
  pub base45_encode : List ℕ → String
  pub base45_decode : String → Option (List ℕ)
  pub as_bytes : String → List ℕ
  pub from_utf8 : List ℕ → Option String
  pub print_addr : SocketAddr → String
  pub parse_addr : String → Option SocketAddr
  pub hex : (bytes : List ℕ) → IsBytes bytes → hex_decode (hex_encode bytes) ≡ some bytes
  pub base45 : (bytes : List ℕ) → IsBytes bytes → base45_decode (base45_encode bytes) ≡ some bytes
  pub as_bytes-IsBytes : (s : String) → IsBytes (as_bytes s)
  pub utf8 : (s : String) → from_utf8 (as_bytes s) ≡ some s
  pub addr : (a : SocketAddr) → IsAddr a → parse_addr (print_addr a) ≡ some a
