-- ===== src/Rpc/Interceptors.antt =====
-- component/rpc/interceptors.go, error.go and context.go: what stands around a handler.
pub mod Packed
use nodehub.Base.{
  ℕ, String, Option, none, some, List, [], ◌∷◌, Bool, true, false, string_eq, Outcome, ok, err,
  panic, ◌==◌, nat_eq, if◌then◌else◌,
}
use nodehub.Base.Int.{ℤ}
use nodehub.Base.Map
use nodehub.Base.Map.{Map}
use nodehub.Gateway.Requests.{Reply, Status, md_gateway, md_sess_id}
use nodehub.Gateway.Lifecycle.{Metadata}
use nodehub.Protocol.{new_reply}

-- `lo.Assign`: of one key, the last map's value.
unfoldable pub assign_one : Map String ℤ → Map String ℤ → Map String ℤ
assign_one codes [] = codes
assign_one codes ((method, code) ∷ later) = assign_one (Map.store codes method code) later

unfoldable pub assign : List (Map String ℤ) → Map String ℤ → Map String ℤ
assign [] codes = codes
assign (later ∷ reply_codes) codes = assign reply_codes (assign_one codes later)

-- What a handler answers: a message, or a value that is none.
pub data Response (M : Type 0) : Type 0 where
  message : M → Response M
  other_value : Response M

-- What the interceptor answers.
pub data PackedResponse (M : Type 0) : Type 0 where
  unchanged : Response M → PackedResponse M
  reply : Reply → PackedResponse M

pub data PackError (E : Type 0) : Type 0 where
  handler_failed : E → PackError E
  pack_failed : PackError E

module _ {E M : Type 0} (marshal : M → Option (List ℕ)) (unmarshal : ℕ → List ℕ → Option M) where
  -- `resp.(proto.Message)` panics on what is no message.
  unfoldable pub pack : ℤ → Response M → Outcome {0, 0} (PackError E) (PackedResponse M)
  pack code other_value = panic
  pack code (message msg) = elim (new_reply marshal unmarshal code msg) [
    | none ↦ err pack_failed
    | some r ↦ ok (reply r)
  ]

  unfoldable pub pack_reply :
      List (Map String ℤ)
      → String
      → Outcome {0, 0} E (Response M)
      → Outcome {0, 0} (PackError E) (PackedResponse M)
  pack_reply reply_codes full_method (err e) = err (handler_failed e)
  pack_reply reply_codes full_method panic = panic
  pack_reply reply_codes full_method (ok resp) =
      elim (Map.load (assign reply_codes []) full_method) [
        | none ↦ ok (unchanged resp)
        | some code ↦ pack code resp
      ]

-- `status.Error` of a code and a text: no error, for the code 0.
unfoldable pub status_err : Status → Option Status
status_err s = if s.code == 0 then none else some s

-- Parameters: the details, `WithDetails` with its error, and `status.Convert`.
module _ {E D : Type 0} (with_details : Status → List D → Outcome {0, 0} E Status)
    (convert : E → Status) (of_status : Status → E) where
  unfoldable pub detailed : Status → List D → Option E
  detailed s details = elim (with_details s details) [
    | ok t ↦ elim (status_err t) [ none ↦ none | some u ↦ some (of_status u) ]
    | err e ↦ some e
    | panic ↦ none
  ]

  unfoldable pub new_error : ℕ → String → List D → Option E
  new_error code msg [] = elim (status_err (record { code = code; message = msg })) [
    | none ↦ none
    | some u ↦ some (of_status u)
  ]
  new_error code msg (d ∷ details) = detailed (record { code = code; message = msg }) (d ∷ details)

  unfoldable pub error_with_detail : E → List D → Option E
  error_with_detail e [] = some e
  error_with_detail e (d ∷ details) = detailed (convert e) (d ∷ details)

-- `metadata.ValueFromIncomingContext`, whose first value is taken.
unfoldable pub first_value : Metadata → String → Option String
first_value md key = elim (Map.load md key) [
  | none ↦ none
  | some values ↦ elim values [ [] ↦ none | v ∷ _ ↦ some v ]
]

-- `none` is a panic.
unfoldable pub session_id_in_context : Metadata → Option String
session_id_in_context md = first_value md md_sess_id

-- `ulid.Parse` is a parameter.
unfoldable pub gateway_id_in_context : (String → Option ℕ) → Metadata → Option ℕ
gateway_id_in_context parse_id md = elim (first_value md md_gateway) [
  | none ↦ none
  | some text ↦ parse_id text
]

-- The line that logRequest writes: its level, and the error.
pub data LogLine (E : Type 0) : Type 0 where
  info : LogLine E
  error : E → LogLine E

unfoldable pub log_request : {E : Type 0} → Option E → LogLine E
log_request none = info
log_request (some e) = error e

-- LogUnary: the argument of the deferred call is evaluated before the handler is called, when the
-- named result is still nil.
unfoldable pub log_unary : {E R : Type 0} → Outcome {0, 0} E R → LogLine E × Outcome {0, 0} E R
log_unary result = (log_request none, result)
