-- ===== src/Ticket/Tests.antt =====
-- A concrete run of the theorem on tickets.
use subportal.Prelude.{ℕ, zero, suc, String, ◌≡◌, refl, none, List, [], ◌∷◌, map, ok, arith}
use subportal.Ticket.Crates.{SocketAddr, v4, v6, IsBytes}
use subportal.Ticket.SampleCrates.{sample_crates}
use subportal.Ticket.Addresses.{unscoped}
use subportal.Ticket.Compact.{to_compact, from_compact}
use subportal.Ticket.RoundTrip.{canonical, Fits, from_compact-to_compact}

abbrev repeated : ℕ → List ℕ
repeated zero = []
repeated (suc n) = 7 ∷ repeated n

repeated-IsBytes : (n : ℕ) → IsBytes (repeated n)
repeated-IsBytes zero = tt
repeated-IsBytes (suc n) = (omega arith, repeated-IsBytes n)

abbrev addrs : List SocketAddr
addrs = v4 (127 ∷ 0 ∷ 0 ∷ 1 ∷ []) 443 ∷ v6 (repeated 16) 443 0 3 ∷ []

sample-Fits : Fits sample_crates (repeated 32) (repeated 16) addrs none ""
sample-Fits = record {
  eid_bytes = repeated-IsBytes 32;
  eid_size = refl;
  token_bytes = repeated-IsBytes 16;
  token_size = refl;
  addrs_valid = (
    ((omega arith, (omega arith, (omega arith, (omega arith, tt)))), refl, omega arith),
    ((repeated-IsBytes 16, refl, omega arith, refl, omega arith), tt),
  );
  addrs_size = omega arith;
  relay_size = tt;
  hostname_size = omega arith;
}

from_compact-to_compact_example :
    (s : String) × (to_compact sample_crates
        (canonical sample_crates (repeated 32) (repeated 16) addrs none "")
      ≡ ok s)
    × (from_compact sample_crates s
        ≡ ok (canonical sample_crates (repeated 32) (repeated 16) (map unscoped addrs) none ""))
from_compact-to_compact_example = from_compact-to_compact sample_crates sample-Fits
