-- ===== src/Control.antt =====
-- The control channel: crates/subportal-iroh/src/control.rs.
pub mod Codec
pub mod Stream
mod Tests
use subportal.Prelude.{String, Bool, Option, List}

-- `enum FocusState`
pub data FocusState : Type 0 where
  active idle : FocusState

-- `struct ClientHello`
pub record ClientHello : Type 0 where
  pub name : String
  pub capabilities : List String
  pub platform : String
  pub token : Option String

-- `struct ServerHello`
pub record ServerHello : Type 0 where
  pub hostname : String
  pub enrolled : Bool

-- `enum ControlMessage`
pub data ControlMessage : Type 0 where
  focus_update : (state : FocusState) → ControlMessage
  dismiss_notification : (id : String) → ControlMessage
