-- ===== src/Auth/Tests.antt =====
-- Authorisation with a concrete security module.
use zeroxyz.Prelude.{String, [], none, some, false, ◌≡◌, refl, ◌↔◌}
use zeroxyz.Errors.{ErrorId, errorf}
use zeroxyz.Auth.{
  ok, SecurityModule, Context, with_auth_context, auth_rpc, auth_rpc-with_auth_context,
}

-- Every token stands for itself, and may make calls but not subscribe.
abbrev module_of_tokens : SecurityModule String
module_of_tokens = record {
  verify_token = λ token. ok (some token);
  auth_rpc = λ user method args. none;
  auth_rpc_subscribe = λ user ns args. some (errorf ErrorId.unauthorized);
  auth_event_streams = λ user. some (errorf ErrorId.unauthorized);
  auth_list_async_replies = λ user. some (errorf ErrorId.unauthorized);
  auth_read_async_reply_by_uuid = λ user. some (errorf ErrorId.unauthorized);
}

abbrev context : Context String
context = record { system_auth = false; access_token = some "t-1"; auth_context = some "t-1" }

auth_rpc-with_auth_context_example :
    (auth_rpc (some module_of_tokens) context "eth_call" [] ≡ none) ↔ (
      (value : String) × (module_of_tokens.verify_token "t-1" ≡ ok (some value))
      × (module_of_tokens.auth_rpc value "eth_call" [] ≡ none))
unfolding with_auth_context
auth_rpc-with_auth_context_example =
    auth_rpc-with_auth_context module_of_tokens "t-1" "eth_call" [] context refl
