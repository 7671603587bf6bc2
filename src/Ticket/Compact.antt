-- ===== src/Ticket/Compact.antt =====
-- `Ticket::to_compact` and `Ticket::from_compact` of crates/subportal-iroh/src/ticket.rs. An error is its
-- context, without the number that it may name.
use Prim.Native.String.{◌++◌ as str_append}
use subportal.Prelude.{
  ℕ, zero, suc, ◌+◌, ◌*◌, ◌/◌, ◌%◌, String, Option, none, some, List, [], ◌∷◌, ◌++◌, length, leb,
  ◌==◌, Result, ok, err, ◌>>=◌, ◌>>◌, ensure, or_err, if◌then◌else◌,
}
use subportal.Prelude.Text.{strip_prefix}
use subportal.Ticket.{Ticket}
use subportal.Ticket.Crates.{SocketAddr, v4, v6, Crates}

-- `COMPACT_PREFIX`
abbrev pub compact_prefix : String
compact_prefix = "SP1:"

-- `u16::to_be_bytes` and `u16::from_be_bytes`
abbrev pub be16 : ℕ → List ℕ
be16 n = n / 256 % 256 ∷ n % 256 ∷ []

abbrev pub from_be16 : List ℕ → ℕ
from_be16 [] = 0
from_be16 (b ∷ []) = b
from_be16 (b ∷ c ∷ bs) = b * 256 + c

-- `read_exact` on a cursor: what is read and what is left.
unfoldable pub read_exact : ℕ → String → List ℕ → Result (List ℕ × List ℕ) String
read_exact zero context bytes = ok ([], bytes)
read_exact (suc n) context [] = err context
read_exact (suc n) context (b ∷ bytes) = read_exact n context bytes >>= λ r. ok (b ∷ r.0, r.1)

unfoldable pub read_byte : String → List ℕ → Result (ℕ × List ℕ) String
read_byte context [] = err context
read_byte context (b ∷ bytes) = ok (b, bytes)

unfoldable pub encode_addr : SocketAddr → List ℕ
encode_addr (v4 octets port) = 4 ∷ (octets ++ be16 port)
encode_addr (v6 octets port flowinfo scope_id) = 6 ∷ (octets ++ be16 port)

unfoldable pub encode_addrs : List SocketAddr → List ℕ
unfolding encode_addr
encode_addrs [] = []
encode_addrs (a ∷ as') = encode_addr a ++ encode_addrs as'

-- The address behind its type byte.
unfoldable pub read_socket : ℕ → List ℕ → Result (SocketAddr × List ℕ) String
unfolding read_exact
read_socket type bytes =
    let as_v4 = read_exact 4 "truncated: missing IPv4" bytes >>= λ ip.
    read_exact 2 "truncated: missing port" ip.1 >>= λ port.
    ok (v4 ip.0 (from_be16 port.0), port.1) in
    let as_v6 = read_exact 16 "truncated: missing IPv6" bytes >>= λ ip.
    read_exact 2 "truncated: missing port" ip.1 >>= λ port.
    ok (v6 ip.0 (from_be16 port.0) 0 0, port.1) in
    if type == 4 then as_v4 else if type == 6 then as_v6 else err "invalid address type"

module _ (crates : Crates) where
  open crates use {
    hex_encode, hex_decode, base45_encode, base45_decode, as_bytes, from_utf8, print_addr,
    parse_addr,
  }

  unfoldable pub parse_addrs : List String → Result (List SocketAddr) String
  parse_addrs [] = ok []
  parse_addrs (a ∷ as') = or_err (parse_addr a) "invalid socket address" >>= λ addr.
      parse_addrs as' >>= λ addrs. ok (addr ∷ addrs)

  unfoldable pub relay_bytes : Option String → Result (List ℕ) String
  relay_bytes none = ok (0 ∷ [])
  relay_bytes (some url) =
      ensure (leb (length (as_bytes url)) 65535) "relay URL too long"
      >> ok (1 ∷ (be16 (length (as_bytes url)) ++ as_bytes url))

  -- The bytes of a ticket.
  unfoldable pub to_binary : Ticket → Result (List ℕ) String
  unfolding parse_addrs relay_bytes encode_addrs
  to_binary ticket =
      or_err (hex_decode ticket.endpoint_id) "endpoint_id is not valid hex" >>= λ eid.
      ensure (length eid == 32) "endpoint_id must be 32 bytes (64 hex chars)" >>= λ _.
      or_err (hex_decode ticket.token) "token is not valid hex" >>= λ token.
      ensure (length token == 16) "token must be 16 bytes (32 hex chars)" >>= λ _.
      parse_addrs ticket.addrs >>= λ addrs.
      ensure (leb (length addrs) 255) "too many addresses" >>= λ _.
      relay_bytes ticket.relay_url >>= λ relay.
      ensure (leb (length (as_bytes ticket.hostname)) 255) "hostname too long" >>= λ _. ok (
        1
        ∷ (eid
            ++ (token
                ++ (length addrs
                    ∷ (encode_addrs addrs
                        ++ (relay
                            ++ (length (as_bytes ticket.hostname) ∷ as_bytes ticket.hostname)))))))

  unfoldable pub to_compact : Ticket → Result String String
  unfolding to_binary
  to_compact ticket = to_binary ticket >>= λ buf. ok (str_append compact_prefix (base45_encode buf))

  -- The loop over the addresses: their texts, and what is left.
  unfoldable pub read_addrs : ℕ → List ℕ → Result (List String × List ℕ) String
  unfolding read_byte read_socket
  read_addrs zero bytes = ok ([], bytes)
  read_addrs (suc n) bytes = read_byte "truncated: missing addr type" bytes >>= λ type.
      read_socket type.0 type.1 >>= λ addr.
      read_addrs n addr.1 >>= λ rest. ok (print_addr addr.0 ∷ rest.0, rest.1)

  unfoldable pub read_relay : List ℕ → Result (Option String × List ℕ) String
  unfolding read_byte read_exact
  read_relay bytes = read_byte "truncated: missing relay_url_present" bytes >>= λ present.
      let absent = ok (none, present.1) in
      let url = read_exact 2 "truncated: missing relay URL length" present.1 >>= λ len.
      read_exact (from_be16 len.0) "truncated: missing relay URL" len.1 >>= λ url.
      or_err (from_utf8 url.0) "relay URL is not valid UTF-8" >>= λ text. ok (some text, url.1) in
      if present.0 == 1 then url else absent

  unfoldable pub read_hostname : List ℕ → Result String String
  unfolding read_byte read_exact
  read_hostname bytes = read_byte "truncated: missing hostname length" bytes >>= λ len.
      read_exact len.0 "truncated: missing hostname" len.1 >>= λ host.
      or_err (from_utf8 host.0) "hostname is not valid UTF-8"

  unfoldable pub from_binary : List ℕ → Result Ticket String
  unfolding read_addrs read_relay read_hostname
  from_binary bin = read_byte "truncated: missing version byte" bin >>= λ version.
      ensure (version.0 == 1) "unsupported compact ticket version" >>= λ _.
      read_exact 32 "truncated: missing endpoint_id" version.1 >>= λ eid.
      read_exact 16 "truncated: missing token" eid.1 >>= λ token.
      read_byte "truncated: missing addr_count" token.1 >>= λ count.
      read_addrs count.0 count.1 >>= λ addrs. read_relay addrs.1 >>= λ relay.
      read_hostname relay.1 >>= λ hostname. ok (record {
        endpoint_id = hex_encode eid.0;
        addrs = addrs.0;
        relay_url = relay.0;
        token = hex_encode token.0;
        hostname = hostname;
      })

  unfoldable pub from_compact : String → Result Ticket String
  unfolding from_binary strip_prefix
  from_compact s = or_err (strip_prefix compact_prefix s) "missing SP1: prefix" >>= λ payload.
      or_err (base45_decode payload) "invalid base45 encoding" >>= λ bin. from_binary bin

  -- `Ticket::parse`, with `from_json` as it is given.
  unfoldable pub parse : (String → Result Ticket String) → String → Result Ticket String
  unfolding from_compact strip_prefix
  parse from_json s = elim (strip_prefix compact_prefix s) [
    | none ↦ from_json s
    | some payload ↦ from_compact s
  ]
