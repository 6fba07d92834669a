-- ===== src/Rpc/Stored.antt =====
-- rpc.py: what a request sees of a key that an earlier request has stored.
use brain_flow.Prelude.{String, Bool, true, Option, none, some, if◌then◌else◌}
use brain_flow.Prelude.Text.{or_text}
use brain_flow.Gateway.Secrets.{Keyring, Secrets, Backend, Answer, is_there, set_secret}
use brain_flow.Rpc.Generate.{Params, Reply, replied}
use brain_flow.Rpc.{
  RpcRequest, RpcResult, secret_set, secret_state, Services, World, Response, handle_request,
}

-- A request of the version that the worker speaks.
abbrev pub request : String → Params → RpcRequest
request method p = record { jsonrpc = some "2.0"; method = method; params = p }

abbrev pub ref_of : Params → String
ref_of p = or_text p.ref ""

-- Whether `secrets.status` has answered that there is a key.
abbrev pub presence : {F J : Type 0} → Reply (RpcResult F J) → Option Bool
presence (replied (secret_state present b)) = some present
presence _ = none

abbrev stored_by : {F J : Type 0} → Reply (RpcResult F J) → Option Backend
stored_by (replied (secret_set b)) = some b
stored_by _ = none

module _ {F J K W : Type 0} (environ : String → Option String) (upper : String → String)
    (keyring : Keyring K) (services : Services F J W) where
  abbrev Set : Params → World K W → Response environ upper keyring services
  Set p w = handle_request environ upper keyring services (request "secrets.set" p) w

  abbrev Stores : Params → Secrets K → Answer (Backend × Secrets K)
  Stores p s = set_secret environ upper keyring (ref_of p) (or_text p.value "") true s

  abbrev there : Bool → Option String → Option Bool
  there valid o = if valid then some (is_there environ upper keyring o) else none
