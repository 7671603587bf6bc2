-- ===== src/Agent/Handshake/Reuse.antt =====
-- Whether a token can be used again, whatever the agent's other tasks do in between.
use subportal.Prelude.{String, ◌≡◌, ◌∙◌, ap, false, some}
use subportal.Control.{ClientHello}
use subportal.Hub.{Hub, Env}
use subportal.Hub.Tokens.{consume_token_valid}
use subportal.Hub.Spent.{has_token, Run, has_token-consume_token, has_token-Run, is_valid-has_token}
use subportal.Agent.Handshake.{refused, server_hello, check_hello}
use subportal.Agent.Handshake.Admission.{token_refused, pending-check_hello}

-- A token lets in one device at most: once a handshake has presented it, however that one ended, every
-- handshake that presents it is refused, from any device and at any time, after any locked sections of
-- other tasks: connections and their handshakes, control messages, revocations, notifications and new
-- tickets. No new ticket's random text is assumed to be the token's.
pub check_hello_once :
    (env env' : Env) (remote remote' token : String) (hello hello' : ClientHello) (hub : Hub)
    {hub' : Hub}
    → hello.token ≡ some token
    → hello'.token ≡ some token
    → Run token (check_hello env remote hello hub).1 hub'
    → (check_hello env' remote' hello' hub').0 ≡ refused (server_hello false hub')
check_hello_once env env' remote remote' token hello hello' hub {hub'} e e' r =
    let used =
      ap (has_token token) (pending-check_hello env remote token hello hub e)
      ∙ has_token-consume_token env.now token hub in
    token_refused env' remote' token hello' hub' e' (
      consume_token_valid env'.now token hub'
      ∙ is_valid-has_token env'.now token hub'.pending_tokens (has_token-Run token r used))
