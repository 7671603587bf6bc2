-- ===== src/Router/Tests.antt =====
-- Concrete runs of the theorems on routing.
use mathlib.Core.List.{Perm}
use subportal.Prelude.{ℕ, String, List, [], ◌∷◌, ◌++◌, ok, err, if◌then◌else◌, ◌==◌}
use subportal.Control.{active, idle}
use subportal.Protocol.{done, user_denied, no_decision, no_client}
use subportal.Router.{ClientInfo, Outcome, rank, fan_out, Joined, finished, join_error}
use subportal.Router.Ranking.{IsRanked, rank_lem}

abbrev phone : ClientInfo
phone = record {
  endpoint_id = "aa";
  focus = idle;
  capabilities = "OpenURI" ∷ "Notify" ∷ [];
  platform = "android";
  last_active = 9;
}

abbrev laptop : ClientInfo
laptop = record phone { endpoint_id = "bb"; focus = active; last_active = 4 }

rank_lem_example :
    Perm (rank (phone ∷ laptop ∷ []) "Notify") (fan_out (phone ∷ laptop ∷ []) "Notify")
    × IsRanked (rank (phone ∷ laptop ∷ []) "Notify")
rank_lem_example = rank_lem (phone ∷ laptop ∷ []) "Notify"

-- Target 1 is unreachable, 2 denies, 3 would succeed; the state counts the requests.
abbrev send : ℕ → List ℕ → Outcome × List ℕ
send n asked = (
  if n == 1 then err no_client else if n == 2 then err user_denied else ok done,
  asked ++ (n ∷ []),
)

abbrev targets : List (String × ℕ)
targets = ("aa", 1) ∷ ("bb", 2) ∷ ("cc", 3) ∷ []

abbrev ends : List Joined
ends =
    finished "aa" (err no_decision)
    ∷ join_error
    ∷ finished "bb" (err user_denied)
    ∷ finished "cc" (ok done)
    ∷ []

abbrev late : List Joined
late = finished "bb" (err user_denied) ∷ []
