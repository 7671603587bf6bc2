-- ===== src/Command/Tests.antt =====
-- Concrete runs of the theorems on the command-line tools.
use Prim.Native.String.{String}
use mathlib.Core.List.Perm
use subportal.Prelude.{
  ℕ, suc, ◌≤◌, ◌<◌, ◌≡◌, refl, ap, ◌∙◌, any, ◌↔◌, true, false, Option, none, some, List, [], ◌∷◌,
  length, ok, err, arith, ◌==◌, if◌then◌else◌,
}
use subportal.Prelude.Text.{codes}
use subportal.Protocol.{done, user_denied}
use subportal.Protocol.SampleJson.{sample_json, Value}
use subportal.Protocol.Wire.{error_to_wire}
use subportal.Router.{Joined, race_decision}
use subportal.Hub.{Hub}
use subportal.Hub.Send.{Exchange, recv_failed, received}
use subportal.Hub.Sample.{sample_hub, env_at}
use subportal.Local.Client.{call}
use subportal.Local.Server.{PeerInfo}
use subportal.Agent.Socket.{accept_unix}
use subportal.Command.Console.{SocketPath}
use subportal.Command.Url.{is_url, HasScheme, is_url_iff}
use subportal.Command.FileOpen.{Files, Caller}
use subportal.Command.NotifyArgs.{Parsed, parse_args}
use subportal.Command.NotifyArgs.Total.{parse_args_total}
use subportal.Command.NotifyArgs.Kinds.{Valued}
use subportal.Command.NotifyArgs.Lines.{
  Item, urgency_short, urgency_eq, skipped, plain, command_line, urgency_in, icon_in, last, words,
  notification, parse_args-command_line,
}
use subportal.Agent.Requests.{ranked_connections}
use subportal.Desktop.Portal.{Bus, System, written}
use subportal.Command.Confirm.Approval.{to_desktop, user_approves, main-approval}
use subportal.Command.Subportal.{Machine, confirm_user, main}
use subportal.Command.Confirm.{code_of, main-confirm_code, confirmations}

is_url_iff_example : (is_url "http://a" ≡ true) ↔ HasScheme (codes "http://a")
is_url_iff_example = is_url_iff "http://a"

parse_args_total_example : (p : Parsed) × (parse_args ("-u" ∷ "low" ∷ "title" ∷ []) ≡ some p)
parse_args_total_example = parse_args_total ("-u" ∷ "low" ∷ "title" ∷ [])

abbrev line : List Item
line =
    urgency_short "low"
    ∷ plain "title"
    ∷ skipped Valued.t_short "9"
    ∷ urgency_eq "critical"
    ∷ plain "a"
    ∷ plain "b"
    ∷ []

parse_args-command_line_example :
    parse_args (command_line line)
    ≡ some (notification (words line) (last urgency_in none line) (last icon_in none line))
unfolding subportal.Prelude.Text.strip_prefix
parse_args-command_line_example =
    parse_args-command_line line (tt, (refl, (tt, (tt, (refl, (refl, tt))))))

-- An encoding with one character for each byte.
encode : List ℕ → String
encode [] = ""
encode (b ∷ bytes) = String.◌∷◌ "x" (encode bytes)

abbrev three_bytes : List ℕ
three_bytes = 1 ∷ 2 ∷ 3 ∷ []

abbrev files : Files
files = record {
  read = λ target. ok three_bytes;
  file_name = λ target. none;
  mime = λ target. "text/plain";
  base64 = encode;
}

-- The laptop, connection 2, cannot be reached; the user of the phone denies.
abbrev network : ℕ → Value → Exchange Value
network connection value =
    if connection == 2 then recv_failed else received (error_to_wire sample_json user_denied)

abbrev as_it_is : Hub → Hub
as_it_is hub = hub

abbrev in_order : List Joined → List Joined
in_order tasks = tasks

abbrev machine : Machine
machine = record {
  files = files;
  printer = record {
    from_json = λ text. err "no JSON";
    to_compact = λ t. ok "SP1:";
    print_qr = λ text. ok [];
  };
  shown = record { to_rfc3339 = λ time. ""; first_16 = λ id. id; error_text = λ e. "" };
  latency = "0.1";
  registry = ok [];
  agent_run = λ relay_url. ok tt;
}

abbrev peer : PeerInfo
peer = record { pid = some 9; uid = some 1000 }

abbrev socket : SocketPath
socket = record { path = "/run/s"; exists = true }

-- What the tool's call of the agent ends with.
abbrev caller : Caller
caller =
    call sample_json
      (λ (value : Value).
        let answer =
          accept_unix sample_json network in_order as_it_is (env_at 50) 1000 peer sample_hub
            value in
        answer.0)
      none

abbrev prompts : Bus
prompts = record {
  connects = true;
  subscribes = true;
  shows = λ call. some 5;
  signals = record { member = "ActionInvoked"; action = some (5, "approve"); reason = none } ∷ [];
  stream_ends = false;
}

abbrev system : System
system = record {
  parses_url = λ uri. true;
  decode = λ content. none;
  runtime_dir = none;
  uid = 1;
  creates_dir = true;
  write_end = written;
  opens = true;
  sends_uri = λ uri. true;
  sends_file = λ path. true;
}

abbrev desktops : ℕ → Value → Exchange Value
desktops = to_desktop sample_json (λ c. system) (λ c. prompts) (λ c. []) "host"

abbrev approval : ℕ
approval =
    (main machine socket
      (call sample_json
        (λ value.
          (accept_unix sample_json desktops in_order as_it_is (env_at 50) 1000 peer sample_hub
            value).0)
        none)
      (confirm_user "m" none)).code

raced :
    race_decision
      (confirmations sample_json desktops in_order as_it_is (env_at 50) "m" none sample_hub)
    ≡ ok done
unfolding subportal.Router.race_decision ranked_connections subportal.Router.rank
    subportal.Prelude.Sort.sort_by subportal.Hub.client_infos subportal.Prelude.Table.get
    subportal.Hub.Send.reply subportal.Desktop.Session.handle_request_stream
    subportal.Protocol.Codec.from_value subportal.Protocol.Codec.to_value
    subportal.Protocol.Codec.method_name subportal.Protocol.Codec.str_field
    subportal.Protocol.Codec.request_fields subportal.Protocol.Codec.opt_field
    subportal.Protocol.Codec.opt_str_value subportal.Desktop.Portal.confirm
    subportal.Protocol.Wire.response_to_wire
raced = refl

is_success : (approval == 0) ≡ true
is_success =
    ap (λ n. n == 0)
      (main-confirm_code sample_json desktops in_order as_it_is (env_at 50) machine socket none 1000
        peer "m" none sample_hub refl)
    ∙ ap (λ o. code_of o == 0) raced

main-approval_example :
    any
      (λ c. user_approves prompts "m" none (some "host"))
      (ranked_connections "Confirm" sample_hub)
    ≡ true
main-approval_example =
    main-approval sample_json (λ c. system) (λ c. prompts) (λ c. []) "host" in_order as_it_is
      (env_at 50) machine socket none 1000 peer "m" none sample_hub (λ tasks. Perm.refl tasks) refl
      is_success
