-- ===== src/Command/FileOpen/Transfer.antt =====
-- A file on its way from a tool to a device.
use subportal.Prelude.{
  ℕ, ◌≤◌, ◌<◌, String, ◌≡◌, refl, ◌⊎◌, inl, inr, true, false, Option, some, List, [], ◌∷◌, length,
  ltb, ok, err, unwrap_or, Bool-cases, arith,
}
use subportal.Protocol.{max_file_size, Request, open_file}
use subportal.Android.Requests.{App, handled, on_open_file, handle_request}
use subportal.Desktop.Handler.{Portal, handled as portal_handled, handle}
use subportal.Command.Console.{Ran, ended}
use subportal.Command.FileOpen.{Files, too_large_line, file_request, read_request, request_for}
use subportal.Command.Url.{is_url}

module _ (files : Files) where
  open files use {read, file_name, mime, base64}

  -- The request for a file's content.
  abbrev pub file_sent : String → List ℕ → Request
  file_sent target bytes =
      open_file (unwrap_or (file_name target) "file") (mime target) (base64 bytes)

  -- A decoder of base64 that gives back as many bytes as were encoded.
  abbrev Decodes : (String → Option ℕ) → Type 0
  Decodes decoded_len = (bytes : List ℕ) → decoded_len (base64 bytes) ≡ some (length bytes)

  -- The phone hands the file to its app, and the desktop to its portal.
  pub record Received (app : App) (portal : Portal) (target : String) (bytes : List ℕ)
      : Type 0 where
    pub on_phone :
        (host : String) (id : Option String)
        → handle_request app (file_sent target bytes) host id ≡ (
          handled (
              app.opens_file
                (unwrap_or (file_name target) "file")
                (mime target)
                (base64 bytes)
                host),
          on_open_file (unwrap_or (file_name target) "file") (mime target) (base64 bytes) host ∷ [],
        )
    pub on_desktop :
        (host id : Option String)
        → (handle portal (file_sent target bytes) host id []).0
          ≡ portal_handled
              (portal.opens_file (unwrap_or (file_name target) "file") (mime target) (base64 bytes))

  not_larger : (n m : ℕ) → ltb n m ≡ false → m ≤ n
  not_larger n m h = ground arith

  larger : (n m : ℕ) → ltb n m ≡ true → n < m
  larger n m h = ground arith

  received :
      (app : App) (portal : Portal) (target : String) (bytes : List ℕ)
      → Decodes app.decoded_len
      → Decodes portal.decoded_len
      → ltb max_file_size (length bytes) ≡ false
      → Received app portal target bytes
  unfolding handle_request handle
  received app portal target bytes d d' e = record {
    on_phone = λ host id. rw (d bytes, e) refl;
    on_desktop = λ host id. rw (d' bytes, e) refl;
  }

  -- A target that is no URL and can be read: up to 5 MB its content is sent, and then no device finds it
  -- too large, each hands it to its app or portal as it is; a larger one is not sent, and the tool ends
  -- with its code for that. The devices decode as many bytes from base64 as were encoded.
  request_for_lem :
      (tool : String) (unreadable too_large : ℕ) (target : String) (bytes : List ℕ) (app : App)
      (portal : Portal)
      → is_url target ≡ false
      → read target ≡ ok bytes
      → Decodes app.decoded_len
      → Decodes portal.decoded_len
      → ((length bytes ≤ max_file_size)
          × (request_for files tool unreadable too_large target ≡ ok (file_sent target bytes))
          × Received app portal target bytes)
        ⊎ ((max_file_size < length bytes)
            × (ran : Ran) × (request_for files tool unreadable too_large target ≡ err ran)
            × (ran.code ≡ too_large))
  unfolding request_for read_request file_request
  request_for_lem tool unreadable too_large target bytes app portal u r d d' =
      elim (Bool-cases (ltb max_file_size (length bytes))) [
        | inl e ↦ inr (
          larger max_file_size (length bytes) e,
          ended too_large (too_large_line files tool target (length bytes) ∷ []),
          rw (u, r, e) refl,
          refl,
        )
        | inr e ↦ inl (
          not_larger max_file_size (length bytes) e,
          rw (u, r, e) refl,
          received app portal target bytes d d' e,
        )
      ]
