-- ===== src/Protocol/Tests.antt =====
-- Concrete runs of the theorems on the protocol.
use subportal.Prelude.{
  ℕ, ◌+◌, ◌≡◌, Option, some, List, [], ◌∷◌, ◌++◌, drop, length, leb, err, or_err, if◌then◌else◌,
  arith,
}
use subportal.Protocol.{max_message_size, generate_ticket}
use subportal.Protocol.SampleJson.{sample_json}
use subportal.Protocol.Codec.{to_value, from_value}
use subportal.Protocol.Codec.RoundTrip.{from_value-to_value}
use subportal.Protocol.Frame.{nul, too_large, closed, bad_json, read_message}
use subportal.Protocol.Frame.Laws.{read_message_lem}

from_value-to_value_example :
    from_value sample_json (to_value sample_json (generate_ticket 600)) ≡ some (generate_ticket 600)
from_value-to_value_example = from_value-to_value sample_json (generate_ticket 600) (omega arith)

-- The bytes of a message, as they are.
abbrev as_is : List ℕ → Option (List ℕ)
as_is body = some body

abbrev body : List ℕ
body = 7 ∷ 8 ∷ []

read_message_lem_example :
    (read_message as_is (body ++ (nul ∷ 9 ∷ [])) ≡ (
      if leb (length body) max_message_size
      then (or_err (as_is body) bad_json, 9 ∷ [])
      else (err too_large, drop (max_message_size + 1) body ++ (nul ∷ 9 ∷ []))))
    × (read_message as_is body ≡ (
        if leb (length body) max_message_size
        then (err closed, [])
        else (err too_large, drop (max_message_size + 1) body)))
read_message_lem_example =
    read_message_lem as_is body (9 ∷ [])
      ((λ e. absurd (omega (arith, e))), ((λ e. absurd (omega (arith, e))), tt))
