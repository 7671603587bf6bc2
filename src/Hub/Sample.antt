-- ===== src/Hub/Sample.antt =====
-- A hub with two connected clients and a pending token, for the concrete runs.
use subportal.Prelude.{ℕ, ◌+◌, String, Bool, true, false, Option, none, some, [], ◌∷◌}
use subportal.Control.{active, idle, ClientHello}
use subportal.Peers.Registry.{written}
use subportal.Peers.SampleFormat.{sample_format}
use subportal.Peers.Clients.{ClientEntry, ClientRegistry}
use subportal.Peers.Token.{ℤ, pos, negsuc, PendingToken}
use subportal.Hub.{Channel, ConnectedClient, Hub, Env}

abbrev pub phone_entry : ClientEntry
phone_entry = record {
  endpoint_id = "aa";
  name = "phone";
  enrolled_at = 1;
  last_seen = none;
  capabilities = "Confirm" ∷ [];
}

abbrev laptop_entry : ClientEntry
laptop_entry = record {
  endpoint_id = "bb";
  name = "laptop";
  enrolled_at = 2;
  last_seen = some 3;
  capabilities = [];
}

abbrev pub sample_registry : ClientRegistry
sample_registry = record { entries = phone_entry ∷ laptop_entry ∷ []; file = none }

abbrev pub channel : Bool → Channel
channel is_open = record { is_open = is_open; sent = [] }

abbrev pub phone : ConnectedClient
phone = record {
  endpoint_id = "aa";
  name = "phone";
  platform = "android";
  connection = 1;
  focus = idle;
  capabilities = "OpenURI" ∷ "Confirm" ∷ "Notify" ∷ [];
  last_active = 9;
  control_tx = channel true;
}

abbrev pub laptop : ConnectedClient
laptop = record {
  endpoint_id = "bb";
  name = "laptop";
  platform = "linux";
  connection = 2;
  focus = active;
  capabilities = "OpenURI" ∷ "Notify" ∷ "Confirm" ∷ [];
  last_active = 4;
  control_tx = channel false;
}

abbrev pub pending : PendingToken
pending = record { token = "t1"; created_at = 10; expires_at = 100 }

abbrev pub sample_hub : Hub
sample_hub = record {
  clients = ("aa", phone) ∷ ("bb", laptop) ∷ [];
  registry = sample_registry;
  pending_notifications = [];
  pending_tokens = pending ∷ [];
  endpoint_id = "cc";
  endpoint_addrs = [];
  hostname = "host";
  notification_counter = 7;
}

abbrev plus_seconds : ℕ → ℤ → Option ℕ
plus_seconds now (pos n) = some (now + n)
plus_seconds now (negsuc n) = none

abbrev pub env_at : ℕ → Env
env_at now = record {
  now = now;
  fresh_token = "t2";
  plus_seconds = plus_seconds;
  to_json = λ t. t.token;
  format = sample_format;
  io = written;
}

abbrev pub hello_with : Option String → ClientHello
hello_with token = record {
  name = "phone";
  capabilities = "Confirm" ∷ [];
  platform = "android";
  token = token;
}
