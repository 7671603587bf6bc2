-- ===== src/Ticket/Addresses.antt =====
-- The parts of a compact ticket: fields of a fixed size and the block of the addresses are read back.
use mathlib.Core.List.{append_assoc, append-nil}
use mathlib.Core.Path.{subst}
use subportal.Prelude.{
  ℕ, zero, suc, ◌<◌, String, ◌≡◌, refl, sym, ap, List, [], ◌∷◌, ◌++◌, map, length, ok, All, arith,
}
use subportal.Ticket.Crates.{SocketAddr, v4, v6, IsAddr, IsBytes, Crates}
use subportal.Ticket.Compact.{
  be16, from_be16, read_exact, read_byte, encode_addr, encode_addrs, read_socket, parse_addrs,
  read_addrs,
}

pub read_exact-append :
    (n : ℕ) (context : String) (xs rest : List ℕ)
    → length xs ≡ n
    → read_exact n context (xs ++ rest) ≡ ok (xs, rest)
unfolding read_exact
read_exact-append zero context [] rest h = refl
read_exact-append zero context (x ∷ xs) rest h = absurd (omega (arith, h))
read_exact-append (suc n) context [] rest h = absurd (omega (arith, h))
read_exact-append (suc n) context (x ∷ xs) rest h =
    rw (read_exact-append n context xs rest (omega (arith, h))) refl

pub read_exact-all :
    (n : ℕ) (context : String) (xs : List ℕ) → length xs ≡ n → read_exact n context xs ≡ ok (xs, [])
read_exact-all n context xs h =
    subst (λ l. read_exact n context l ≡ ok (xs, [])) (append-nil xs)
      (read_exact-append n context xs [] h)

pub from_be16-be16 : (n : ℕ) → n < 65536 → from_be16 (be16 n) ≡ n
from_be16-be16 n h = omega (arith, h)

read_socket-v4 :
    (octets rest : List ℕ) (port : ℕ)
    → length octets ≡ 4
    → port < 65536
    → read_socket 4 (octets ++ (be16 port ++ rest)) ≡ ok (v4 octets port, rest)
unfolding read_socket
read_socket-v4 octets rest port h b =
    rw (read_exact-append 4 "truncated: missing IPv4" octets (be16 port ++ rest) h)
      (ap (λ p. ok (v4 octets p, rest)) (from_be16-be16 port b))

read_socket-v6 :
    (octets rest : List ℕ) (port : ℕ)
    → length octets ≡ 16
    → port < 65536
    → read_socket 6 (octets ++ (be16 port ++ rest)) ≡ ok (v6 octets port 0 0, rest)
unfolding read_socket
read_socket-v6 octets rest port h b =
    rw (read_exact-append 16 "truncated: missing IPv6" octets (be16 port ++ rest) h)
      (ap (λ p. ok (v6 octets p 0 0, rest)) (from_be16-be16 port b))

pub All-append : (xs ys : List ℕ) → IsBytes xs → IsBytes ys → IsBytes (xs ++ ys)
All-append [] ys h k = k
All-append (x ∷ xs) ys h k = (h.0, All-append xs ys h.1 k)

pub be16-IsBytes : (n : ℕ) → IsBytes (be16 n)
be16-IsBytes n = (omega arith, (omega arith, tt))

encode_addr-IsBytes : (a : SocketAddr) → IsAddr a → IsBytes (encode_addr a)
unfolding encode_addr
encode_addr-IsBytes (v4 octets port) h =
    (omega arith, All-append octets (be16 port) h.0 (be16-IsBytes port))
encode_addr-IsBytes (v6 octets port flowinfo scope_id) h =
    (omega arith, All-append octets (be16 port) h.0 (be16-IsBytes port))

pub encode_addrs-IsBytes : (l : List SocketAddr) → All IsAddr l → IsBytes (encode_addrs l)
unfolding encode_addrs
encode_addrs-IsBytes [] h = tt
encode_addrs-IsBytes (a ∷ l) h =
    All-append (encode_addr a) (encode_addrs l) (encode_addr-IsBytes a h.0)
      (encode_addrs-IsBytes l h.1)

-- The address without its scope id.
abbrev pub unscoped : SocketAddr → SocketAddr
unscoped (v4 octets port) = v4 octets port
unscoped (v6 octets port flowinfo scope_id) = v6 octets port flowinfo 0

module _ (crates : Crates) where
  open crates use {print_addr}

  pub parse_addrs-print :
      (l : List SocketAddr) → All IsAddr l → parse_addrs crates (map print_addr l) ≡ ok l
  unfolding parse_addrs
  parse_addrs-print [] h = refl
  parse_addrs-print (a ∷ l) h = rw (crates.addr a h.0, parse_addrs-print l h.1) refl

  read_addrs-cons :
      (a : SocketAddr) (l : List SocketAddr) (rest : List ℕ)
      → IsAddr a
      → read_addrs crates (length l) (encode_addrs l ++ rest)
        ≡ ok (map (λ a. print_addr (unscoped a)) l, rest)
      → read_addrs crates (suc (length l)) (encode_addr a ++ (encode_addrs l ++ rest))
        ≡ ok (map (λ a. print_addr (unscoped a)) (a ∷ l), rest)
  unfolding read_addrs read_byte encode_addr
  read_addrs-cons (v4 octets port) l rest h e =
      rw
        (
          append_assoc octets (be16 port) (encode_addrs l ++ rest),
          read_socket-v4 octets (encode_addrs l ++ rest) port h.1 h.2,
          e,
        )
        refl
  read_addrs-cons (v6 octets port flowinfo scope_id) l rest h e =
      rw
        (
          append_assoc octets (be16 port) (encode_addrs l ++ rest),
          read_socket-v6 octets (encode_addrs l ++ rest) port h.1 h.2,
          e,
        )
        (ap (λ f. ok (print_addr (v6 octets port f 0) ∷ map (λ a. print_addr (unscoped a)) l, rest))
          (sym h.3))

  pub read_addrs-encode_addrs :
      (l : List SocketAddr) (rest : List ℕ)
      → All IsAddr l
      → read_addrs crates (length l) (encode_addrs l ++ rest)
        ≡ ok (map (λ a. print_addr (unscoped a)) l, rest)
  unfolding read_addrs encode_addrs
  read_addrs-encode_addrs [] rest h = refl
  read_addrs-encode_addrs (a ∷ l) rest h =
      rw (append_assoc (encode_addr a) (encode_addrs l) rest)
        (read_addrs-cons a l rest h.0 (read_addrs-encode_addrs l rest h.1))
