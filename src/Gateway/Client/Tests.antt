-- ===== src/Gateway/Client/Tests.antt =====
-- A call that is answered, one whose reply comes too early, and an error that reaches the caller.
use nodehub.Base.{
  ◌≡◌, refl, ℕ, String, Option, none, some, List, [], ◌∷◌, true, false, ◌&&◌, ◌==◌, nat_eq,
  string_eq, if◌then◌else◌, str_eq_iff, arith, Outcome, ok, err,
}
use nodehub.Base.Int.{ℤ, pos, int_eq, int_beq_iff}
use nodehub.Base.Map
use nodehub.Cluster.Resolver.Query.{get_desc}
use nodehub.Cluster.Tests.{alice}
use nodehub.Gateway.Proxy.Tests.{before}
use nodehub.Gateway.Requests.{
  unknown_service, Reply, RpcError, Outside, redacted, from_error, error_reply, answered, dispatch,
  screened, serve, handle_request,
}
use nodehub.Gateway.Requests.Tests.{outside, answers, lost}
use nodehub.Gateway.Client.{
  new_client, new_request, apply_options, send, store_await, deliver, hand, receive, finish_call,
  end_call, unblock, Event, sends, awaits, receives, ends_call, step, run, rpc_status, call_result,
}
use nodehub.Gateway.Client.Matched.{Matched, run-Matched}
use nodehub.Gateway.Client.Errors.{handle_request-call_result}

abbrev answer : Reply
answer = record { request_id = 1; service_code = pos 1; code = pos 2; payload = [] }

abbrev call_events : List Event
call_events = sends (pos 1) "Say" [] [] true ∷ awaits 0 ∷ receives answer ∷ ends_call 0 false ∷ []

results-call : (run new_client call_events).results ≡ (1, some answer) ∷ []
unfolding run step send new_request apply_options store_await receive hand deliver end_call unblock
    finish_call new_client Map.load Map.store Map.delete
results-call = refl

-- The reply comes between `send` and `await.Store`: the subscribers are given it, not the caller.
abbrev early_events : List Event
early_events = sends (pos 1) "Say" [] [] true ∷ receives answer ∷ awaits 0 ∷ ends_call 0 true ∷ []

results-early :
    ((run new_client early_events).results ≡ (1, none) ∷ [])
    × ((run new_client early_events).observed ≡ answer ∷ [])
unfolding run step send new_request apply_options store_await receive hand deliver end_call unblock
    finish_call new_client Map.load Map.store Map.delete
results-early = (refl, refl)

run-Matched_example : Matched (run new_client call_events)
run-Matched_example = run-Matched call_events

-- A code for one error.
abbrev encode : ℤ → String → ℕ → String → Option (List ℕ)
encode service method code message =
    if service == pos 4 && method == "Say" && code == 12 && message == "text" then some [] else none

abbrev refusal : RpcError
refusal = record {
  request_service = pos 4;
  request_method = "Say";
  status = record { code = 12; message = "text" };
}

abbrev unmarshal_error : List ℕ → Outcome ℕ RpcError
unmarshal_error bytes = ok refusal

decode :
    (service : ℤ) (method : String) (code : ℕ) (message : String) (bytes : List ℕ)
    → encode service method code message ≡ some bytes
    → unmarshal_error bytes
      ≡ ok (record {
        request_service = service;
        request_method = method;
        status = record { code = code; message = message };
      })
decode service method code message bytes h =
    ground
      (arith, h, str_eq_iff method "Say", str_eq_iff message "text", int_beq_iff service (pos 4))

abbrev coded : Outside ℕ
coded = record outside {
  marshal = λ e. encode e.request_service e.request_method e.status.code e.status.message;
}

abbrev refused : Reply
refused = record { request_id = 7; service_code = pos 0; code = pos 1; payload = [] }

result-lost :
    (handle_request coded before alice lost answers).0.result ≡ err (unknown_service (pos 4))
unfolding handle_request serve screened dispatch get_desc Map.load
result-lost = refl

from_error-lost :
    from_error coded (unknown_service (pos 4)) ≡ some (record { code = 12; message = "text" })
unfolding from_error
from_error-lost = refl

replies-lost : (handle_request coded before alice lost answers).1 ≡ ok (refused ∷ [])
unfolding handle_request serve screened dispatch get_desc Map.load answered error_reply redacted
    from_error
replies-lost = refl

handle_request-call_result_example :
    (refused.request_id ≡ lost.id)
    × (call_result unmarshal_error (λ bytes. ok bytes) refused
        ≡ err (rpc_status (record { code = 12; message = "text" })))
handle_request-call_result_example =
    handle_request-call_result coded unmarshal_error (λ bytes. ok bytes) before alice lost answers
      (unknown_service (pos 4)) (record { code = 12; message = "text" }) refused
      (λ x bytes h.
        decode x.request_service x.request_method x.status.code x.status.message bytes h)
      result-lost from_error-lost (λ e. cc) replies-lost
