-- ===== src/Protocol.antt =====
-- proto/nh/helper.go: the types of the replies, and their packing.
pub mod Tests
use nodehub.Base.{
  ◌≡◌, ◌↔◌, refl, ℕ, String, Option, none, some, List, [], ◌∷◌, Bool, true, false, ◌&&◌,
  if◌then◌else◌, arith, Eq, nat_eq,
}
use nodehub.Base.Int.{ℤ, pos, int_beq, int_beq_iff, int_eq}
use nodehub.Base.Map
use nodehub.Base.Map.{Map}
use nodehub.Gateway.Requests.{Reply}

-- `[2]int32`: a service code and the code of a reply.
pub record ReplyKey : Type 0 where
  pub service_code : ℤ
  pub code : ℤ

abbrev pub reply_key_beq : ReplyKey → ReplyKey → Bool
reply_key_beq a b = int_beq a.service_code b.service_code && int_beq a.code b.code

pub reply_key_beq_iff : (a b : ReplyKey) → (reply_key_beq a b ≡ true) ↔ (a ≡ b)
reply_key_beq_iff a b =
    ground (arith, int_beq_iff a.service_code b.service_code, int_beq_iff a.code b.code)

instance abbrev pub reply_key_eq : Eq ReplyKey
reply_key_eq = record { same = reply_key_beq; same_iff = reply_key_beq_iff }

-- A type of Go is a number.
abbrev pub ReplyTypes : Type 0
ReplyTypes = Map ReplyKey ℕ

-- `ReplyCode_RPC_ERROR`
abbrev pub rpc_error_code : ℤ
rpc_error_code = pos 1

unfoldable pub register_reply_type : ℤ → ℤ → ℕ → ReplyTypes → ReplyTypes
register_reply_type service_code code type types =
    Map.store types (record { service_code = service_code; code = code }) type

-- The types behind `init`; `rpc_error` is the type of RPCError.
unfoldable pub new_reply_types : ℕ → ReplyTypes
unfolding register_reply_type
new_reply_types rpc_error = register_reply_type (pos 0) rpc_error_code rpc_error []

unfoldable pub get_reply_type : ℤ → ℤ → ReplyTypes → Option ℕ
get_reply_type service_code code types =
    Map.load types (record { service_code = service_code; code = code })

-- What UnpackReply comes to; `unknown_type` is its `ok` that is false.
pub data Unpacked (M : Type 0) : Type 0 where
  unpacked : M → Unpacked M
  unknown_type not_decoded : Unpacked M

-- Parameters: `proto.Marshal`, and `proto.Unmarshal` into a value of a type.
module _ {M : Type 0} (marshal : M → Option (List ℕ)) (unmarshal : ℕ → List ℕ → Option M) where
  unfoldable pub unpack_reply : ReplyTypes → Reply → Unpacked M
  unpack_reply types reply = elim (get_reply_type reply.service_code reply.code types) [
    | none ↦ unknown_type
    | some type ↦ elim (unmarshal type reply.payload) [
      | none ↦ not_decoded
      | some msg ↦ unpacked msg
    ]
  ]

  unfoldable pub new_reply : ℤ → M → Option Reply
  new_reply code msg = elim (marshal msg) [
    | none ↦ none
    | some bytes ↦
        some (record { request_id = 0; service_code = pos 0; code = code; payload = bytes })
  ]
