-- ===== src/Desktop/Portal/Received.antt =====
-- A file on its way from a tool to the desktop's disk.
use subportal.Prelude.{
  ℕ, String, ◌≡◌, refl, ◌∙◌, true, false, Option, some, List, length, ltb, ok, str_eq, eq_refl,
  unwrap_or,
}
use subportal.Prelude.Table
use subportal.Prelude.Table.{Table}
use subportal.Protocol.{max_file_size, done}
use subportal.Command.FileOpen.{Files, file_request, read_request, request_for}
use subportal.Command.FileOpen.Transfer.{file_sent}
use subportal.Command.Url.{is_url}
use subportal.Desktop.Handler.{handle}
use subportal.Desktop.Portal.{
  Bus, System, written, write_file, decoded_file, file_path, open_file, portal_of,
}

module _ (files : Files) (system : System) where
  -- The name that a tool sends for a target.
  abbrev pub name_of : String → String
  name_of target = unwrap_or (files.file_name target) "file"

  -- A file that a tool can read and that is not too large is sent; the desktop whose directory can be
  -- written and whose user agrees answers success, the file at the path for its name has the content that
  -- the tool has read, byte by byte, and every other file is as it was. The decoder of base64 undoes the
  -- encoder.
  pub open_file-request_for :
      (bus : Bus) (tool target other : String) (unreadable too_large : ℕ) (bytes : List ℕ)
      (disk : Table (List ℕ)) (host id : Option String) (map : Table ℕ)
      → is_url target ≡ false
      → files.read target ≡ ok bytes
      → ltb max_file_size (length bytes) ≡ false
      → ((bs : List ℕ) → system.decode (files.base64 bs) ≡ some bs)
      → system.creates_dir ≡ true
      → system.write_end ≡ written
      → system.opens ≡ true
      → system.sends_file (file_path system (name_of target)) ≡ true
      → str_eq (file_path system (name_of target)) other ≡ false
      → let disk' = (open_file system (name_of target) (files.base64 bytes) disk).1 in
        (request_for files tool unreadable too_large target ≡ ok (file_sent files target bytes))
        × (handle (portal_of system bus) (file_sent files target bytes) host id map
            ≡ (ok done, map))
        × (Table.get (file_path system (name_of target)) disk' ≡ some bytes)
        × (Table.get other disk' ≡ Table.get other disk)
  unfolding request_for read_request file_request handle open_file decoded_file write_file
  open_file-request_for bus tool target other unreadable too_large bytes disk host id map u r e d c
        w o s n =
      let path = file_path system (name_of target) in
      (
        rw (u, r, e) refl,
        rw (d bytes, e, c, w, o, s) refl,
        rw (d bytes, c, w) (Table.get-insert path path bytes disk ∙ rw (eq_refl path) refl),
        rw (d bytes, c, w) (Table.get-insert path other bytes disk ∙ rw n refl),
      )
