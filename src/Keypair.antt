-- ===== src/Keypair.antt =====
-- The secret key of an endpoint: `load_or_generate_keypair` of crates/subportal-iroh/src/keypair.rs. A key is
-- its 32 bytes. The random bytes and how each operation on a file ends are inputs.
pub mod Stable
use subportal.Prelude.{
  ℕ, Bool, true, false, Option, none, some, List, length, ◌==◌, Result, ok, err, if◌then◌else◌,
}

-- The file's content, if it is there, and its permissions.
pub record KeyFile : Type 0 where
  pub content : Option (List ℕ)
  pub mode : Option ℕ

-- How a write of the file ends: done, or failed with some content or no file left behind.
pub data WriteEnd : Type 0 where
  written : WriteEnd
  write_failed : Option (List ℕ) → WriteEnd

pub record Io : Type 0 where
  pub reads : Bool
  pub generated : List ℕ
  pub creates_dir : Bool
  pub write_end : WriteEnd
  pub default_mode : ℕ
  pub sets_permissions : Bool

pub data KeyError : Type 0 where
  read_failed invalid_length no_dir not_written no_permissions : KeyError

-- 0o600
abbrev private_mode : ℕ
private_mode = 384

-- `data.try_into()` an array of 32 bytes, and `SecretKey::from_bytes`.
unfoldable from_data : List ℕ → Result (List ℕ) KeyError
from_data bytes = if length bytes == 32 then ok bytes else err invalid_length

unfoldable restrict : Io → List ℕ → Result (List ℕ) KeyError × KeyFile
restrict io key =
    if io.sets_permissions
    then (ok key, record { content = some key; mode = some private_mode })
    else (err no_permissions, record { content = some key; mode = some io.default_mode })

unfoldable write_key : Io → List ℕ → WriteEnd → Result (List ℕ) KeyError × KeyFile
unfolding restrict
write_key io key written = restrict io key
write_key io key (write_failed none) = (err not_written, record { content = none; mode = none })
write_key io key (write_failed (some left)) =
    (err not_written, record { content = some left; mode = some io.default_mode })

unfoldable write_in : Io → Bool → KeyFile → Result (List ℕ) KeyError × KeyFile
unfolding write_key
write_in io true file = write_key io io.generated io.write_end
write_in io false file = (err no_dir, file)

unfoldable load_from : Io → Option (List ℕ) → KeyFile → Result (List ℕ) KeyError × KeyFile
unfolding from_data write_in
load_from io (some bytes) file =
    if io.reads then (from_data bytes, file) else (err read_failed, file)
load_from io none file = write_in io io.creates_dir file

unfoldable pub load_or_generate_keypair : Io → KeyFile → Result (List ℕ) KeyError × KeyFile
unfolding load_from
load_or_generate_keypair io file = load_from io file.content file
