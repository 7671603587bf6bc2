-- ===== src/Control/Tests.antt =====
-- Concrete runs of the theorems on the control channel.
use subportal.Prelude.{
  ℕ, String, ◌≡◌, refl, Option, none, some, List, [], ◌∷◌, and_then, ok, str_eq, arith,
  if◌then◌else◌, ◌==◌,
}
use subportal.Protocol.SampleJson.{sample_json, Value}
use subportal.Control.{ClientHello, ControlMessage, dismiss_notification}
use subportal.Control.Codec.{client_hello_value, control_value, parse_client_hello}
use subportal.Control.Stream.{
  write_control, read_control, write_messages, read_messages, read_messages-write_messages,
}

abbrev hello : ClientHello
hello = record { name = "laptop"; capabilities = "Notify" ∷ []; platform = "linux"; token = none }

abbrev dismissal : String → Value
dismissal id = control_value sample_json (dismiss_notification id)

-- One byte for each of three values.
abbrev print : Value → List ℕ
print v =
    let id =
      and_then (sample_json.as_object v)
        λ m. and_then (sample_json.lookup "id" m) sample_json.as_str in
    elim id [ none ↦ 9 ∷ [] | some s ↦ if str_eq s "n1" then 7 ∷ [] else 8 ∷ [] ]

abbrev parse : List ℕ → Option Value
parse [] = none
parse (b ∷ bs) =
    if b == 7
    then some (dismissal "n1")
    else (if b == 8 then some (dismissal "n2") else some (client_hello_value sample_json hello))

abbrev msgs : List ControlMessage
msgs = dismiss_notification "n1" ∷ dismiss_notification "n2" ∷ []

read_messages-write_messages_example :
    (stream rest : List ℕ) × (and_then
        (write_control sample_json print parse (client_hello_value sample_json) [] hello)
        (write_messages sample_json print parse msgs)
      ≡ some stream)
    × (read_control sample_json print parse (parse_client_hello sample_json) stream
        ≡ (ok hello, rest))
    × (read_messages sample_json print parse 3 rest ≡ msgs)
unfolding client_hello_value control_value
read_messages-write_messages_example =
    read_messages-write_messages sample_json print parse hello msgs 3
      (refl, ((λ e. absurd (omega (arith, e))), tt), omega arith)
      (
        (refl, ((λ e. absurd (omega (arith, e))), tt), omega arith),
        ((refl, ((λ e. absurd (omega (arith, e))), tt), omega arith), tt),
      )
      (omega arith)
