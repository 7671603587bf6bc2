-- ===== src/Desktop/Portal/Tests.antt =====
-- Concrete runs of the theorems on the portal of the desktop.
use subportal.Prelude.{ℕ, String, ◌≡◌, refl, true, false, Option, none, some, [], ◌∷◌, ok}
use subportal.Prelude.Table
use subportal.Protocol.{confirm as confirm_request, done}
use subportal.Ticket.SampleCrates.{sample_crates, decode_lem}
use subportal.Command.FileOpen.{Files, request_for}
use subportal.Command.FileOpen.Transfer.{file_sent}
use subportal.Desktop.Handler.{handle}
use subportal.Desktop.Portal.{
  BusSignal, Bus, System, written, events_of, confirm, file_path, open_file, portal_of,
}
use subportal.Desktop.Portal.Prompt.{first_of, answer_of, closed_of, handle-confirm}
use subportal.Desktop.Portal.Received.{open_file-request_for}

abbrev signal : String → Option (ℕ × String) → Option (ℕ × ℕ) → BusSignal
signal member action reason = record { member = member; action = action; reason = reason }

abbrev bus : Bus
bus = record {
  connects = true;
  subscribes = true;
  shows = λ call. some 5;
  signals =
      signal "NotificationClosed" none (some (4, 2))
      ∷ signal "ActionInvoked" (some (5, "approve")) none
      ∷ signal "NotificationClosed" none (some (5, 2))
      ∷ [];
  stream_ends = false;
}

abbrev files : Files
files = record {
  read = λ target. ok (1 ∷ 2 ∷ 3 ∷ []);
  file_name = λ target. some "a";
  mime = λ target. "text/plain";
  base64 = λ bytes. sample_crates.hex_encode bytes;
}

abbrev system : System
system = record {
  parses_url = λ uri. true;
  decode = λ content. sample_crates.hex_decode content;
  runtime_dir = some "/run/user/1";
  uid = 1;
  creates_dir = true;
  write_end = written;
  opens = true;
  sends_uri = λ uri. true;
  sends_file = λ path. true;
}

handle-confirm_example :
    (handle (portal_of system bus) (confirm_request "m" none) none none []
      ≡ (answer_of (first_of 5 (events_of bus.signals)), []))
    × ((confirm bus "m" none none).1
        ≡ closed_of bus.stream_ends 5 (first_of 5 (events_of bus.signals)))
handle-confirm_example = handle-confirm system bus "m" none none none 5 [] refl refl refl

open_file-request_for_example :
    (request_for files "xdg-open" 2 4 "/tmp/a" ≡ ok (file_sent files "/tmp/a" (1 ∷ 2 ∷ 3 ∷ [])))
    × (handle (portal_of system bus) (file_sent files "/tmp/a" (1 ∷ 2 ∷ 3 ∷ [])) none none []
        ≡ (ok done, []))
    × (Table.get
          (file_path system "a")
          (open_file system "a" (sample_crates.hex_encode (1 ∷ 2 ∷ 3 ∷ [])) []).1
        ≡ some (1 ∷ 2 ∷ 3 ∷ []))
    × (Table.get "/run/user/1/x"
          (open_file system "a" (sample_crates.hex_encode (1 ∷ 2 ∷ 3 ∷ [])) []).1
        ≡ none)
unfolding subportal.Command.Url.is_url file_path Table.get subportal.Prelude.Text.strip_prefix
open_file-request_for_example =
    open_file-request_for files system bus "xdg-open" "/tmp/a" "/run/user/1/x" 2 4 (1 ∷ 2 ∷ 3 ∷ [])
      [] none none [] refl refl refl (λ bs. decode_lem bs) refl refl refl refl refl
