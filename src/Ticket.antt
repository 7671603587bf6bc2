-- ===== src/Ticket.antt =====
-- The enrollment ticket: crates/subportal-iroh/src/ticket.rs.
pub mod Crates
pub mod SampleCrates
pub mod Compact
pub mod Addresses
pub mod RoundTrip
mod Tests
use subportal.Prelude.{String, Option, List}

-- `struct Ticket`
pub record Ticket : Type 0 where
  pub endpoint_id : String
  pub addrs : List String
  pub relay_url : Option String
  pub token : String
  pub hostname : String
