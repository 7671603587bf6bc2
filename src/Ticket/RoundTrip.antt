-- ===== src/Ticket/RoundTrip.antt =====
-- The compact form of a ticket can be read back.
use Prim.Native.String.{◌++◌ as str_append}
use subportal.Prelude.{
  ℕ, ◌≤◌, String, ◌≡◌, refl, ap, true, Option, none, some, List, [], ◌∷◌, ◌++◌, map, length, leb,
  ok, All, arith,
}
use subportal.Prelude.Text.{strip_prefix-append}
use subportal.Ticket.{Ticket}
use subportal.Ticket.Crates.{SocketAddr, IsAddr, IsBytes, Crates}
use subportal.Ticket.Compact.{
  compact_prefix, be16, read_byte, encode_addrs, relay_bytes, to_binary, to_compact, read_relay,
  read_hostname, from_binary, from_compact,
}
use subportal.Ticket.Addresses.{
  read_exact-append, read_exact-all, from_be16-be16, All-append, be16-IsBytes, encode_addrs-IsBytes,
  unscoped, parse_addrs-print, read_addrs-encode_addrs,
}

module _ (crates : Crates) where
  open crates use {hex_encode, as_bytes, print_addr}

  -- The relay's text fits its length field.
  abbrev IsRelay : Option String → Type 0
  IsRelay none = Unit
  IsRelay (some url) = length (as_bytes url) ≤ 65535

  abbrev relay_part : Option String → List ℕ
  relay_part none = 0 ∷ []
  relay_part (some url) = 1 ∷ (be16 (length (as_bytes url)) ++ as_bytes url)

  relay_part-IsBytes : (relay : Option String) → IsBytes (relay_part relay)
  relay_part-IsBytes none = (omega arith, tt)
  relay_part-IsBytes (some url) = (
    omega arith,
    All-append (be16 (length (as_bytes url))) (as_bytes url) (be16-IsBytes (length (as_bytes url)))
        (crates.as_bytes-IsBytes url),
  )

  leb_of_le : (n m : ℕ) → n ≤ m → leb n m ≡ true
  leb_of_le n m h = ground arith

  relay_bytes_lem :
      (relay : Option String) → IsRelay relay → relay_bytes crates relay ≡ ok (relay_part relay)
  unfolding relay_bytes
  relay_bytes_lem none h = refl
  relay_bytes_lem (some url) h = rw (leb_of_le (length (as_bytes url)) 65535 h) refl

  read_relay-part :
      (relay : Option String) (rest : List ℕ)
      → IsRelay relay
      → read_relay crates (relay_part relay ++ rest) ≡ ok (relay, rest)
  unfolding read_relay read_byte
  read_relay-part none rest h = refl
  read_relay-part (some url) rest h =
      rw
        (
          from_be16-be16 (length (as_bytes url)) (omega (arith, h)),
          read_exact-append (length (as_bytes url)) "truncated: missing relay URL" (as_bytes url)
              rest refl,
          crates.utf8 url,
        )
        refl

  read_hostname_lem :
      (hostname : String)
      → read_hostname crates (length (as_bytes hostname) ∷ as_bytes hostname) ≡ ok hostname
  unfolding read_hostname read_byte
  read_hostname_lem hostname =
      rw
        (
          read_exact-all (length (as_bytes hostname)) "truncated: missing hostname"
              (as_bytes hostname) refl,
          crates.utf8 hostname,
        )
        refl

  print-unscoped :
      (l : List SocketAddr) → map (λ a. print_addr (unscoped a)) l ≡ map print_addr (map unscoped l)
  print-unscoped [] = refl
  print-unscoped (a ∷ l) = ap (◌∷◌ (print_addr (unscoped a))) (print-unscoped l)

  -- A ticket with its fields in the texts that decoding gives.
  abbrev pub canonical : List ℕ → List ℕ → List SocketAddr → Option String → String → Ticket
  canonical eid token addrs relay hostname = record {
    endpoint_id = hex_encode eid;
    addrs = map print_addr addrs;
    relay_url = relay;
    token = hex_encode token;
    hostname = hostname;
  }

  -- The sizes that the compact form has room for.
  pub record Fits (eid token : List ℕ) (addrs : List SocketAddr) (relay : Option String)
      (hostname : String) : Type 0 where
    pub eid_bytes : IsBytes eid
    pub eid_size : length eid ≡ 32
    pub token_bytes : IsBytes token
    pub token_size : length token ≡ 16
    pub addrs_valid : All IsAddr addrs
    pub addrs_size : length addrs ≤ 255
    pub relay_size : IsRelay relay
    pub hostname_size : length (as_bytes hostname) ≤ 255

  module _ {eid token : List ℕ} {addrs : List SocketAddr} {relay : Option String}
      {hostname : String} (fits : Fits eid token addrs relay hostname) where
    abbrev host_part : List ℕ
    host_part = length (as_bytes hostname) ∷ as_bytes hostname

    abbrev bytes : List ℕ
    bytes =
        1
        ∷ (eid
            ++ (token ++ (length addrs ∷ (encode_addrs addrs ++ (relay_part relay ++ host_part)))))

    bytes-IsBytes : IsBytes bytes
    bytes-IsBytes = (
      omega arith,
      All-append eid _ fits.eid_bytes (
          All-append token _ fits.token_bytes (
            omega (arith, fits.addrs_size),
            All-append (encode_addrs addrs) _ (encode_addrs-IsBytes addrs fits.addrs_valid) (
                All-append (relay_part relay) _ (relay_part-IsBytes relay)
                  (omega (arith, fits.hostname_size), crates.as_bytes-IsBytes hostname)),
          )),
    )

    to_binary_lem : to_binary crates (canonical eid token addrs relay hostname) ≡ ok bytes
    unfolding to_binary
    to_binary_lem =
        rw
          (
            crates.hex eid fits.eid_bytes,
            fits.eid_size,
            crates.hex token fits.token_bytes,
            fits.token_size,
            parse_addrs-print crates addrs fits.addrs_valid,
            leb_of_le (length addrs) 255 fits.addrs_size,
            relay_bytes_lem relay fits.relay_size,
            leb_of_le (length (as_bytes hostname)) 255 fits.hostname_size,
          )
          refl

    from_binary_lem :
        from_binary crates bytes ≡ ok (canonical eid token (map unscoped addrs) relay hostname)
    unfolding from_binary read_byte
    from_binary_lem =
        rw
          (
            read_exact-append 32 "truncated: missing endpoint_id" eid _ fits.eid_size,
            read_exact-append 16 "truncated: missing token" token _ fits.token_size,
            read_addrs-encode_addrs crates addrs (relay_part relay ++ host_part) fits.addrs_valid,
            read_relay-part relay host_part fits.relay_size,
            read_hostname_lem hostname,
            print-unscoped addrs,
          )
          refl

    -- A ticket whose endpoint id and token are the hex texts of 32 and 16 bytes, whose addresses are the
    -- texts of socket addresses, at most 255, and whose relay and host name fit their length fields has a
    -- compact form, and reading that gives the ticket with the scope ids of its IPv6 addresses left out.
    pub from_compact-to_compact :
        (s : String) × (to_compact crates (canonical eid token addrs relay hostname) ≡ ok s)
        × (from_compact crates s ≡ ok (canonical eid token (map unscoped addrs) relay hostname))
    unfolding to_compact from_compact
    from_compact-to_compact = (
      str_append compact_prefix (crates.base45_encode bytes),
      rw to_binary_lem refl,
      rw
          (
            strip_prefix-append compact_prefix (crates.base45_encode bytes),
            crates.base45 bytes bytes-IsBytes,
          )
          from_binary_lem,
    )
