-- ===== src/Protocol/Tests.antt =====
-- Replies from a handler to a client, on concrete messages.
use nodehub.Base.{
  ◌≡◌, refl, ℕ, String, Option, none, some, List, [], ◌∷◌, string_eq, ok, err, ◌==◌, nat_eq,
  if◌then◌else◌,
}
use nodehub.Base.Int.{ℤ, pos}
use nodehub.Base.Map
use nodehub.Base.Map.{Map}
use nodehub.Gateway.Proxy.Tests.{asks}
use nodehub.Gateway.Requests.{Reply, replied}
use nodehub.Gateway.Requests.Tests.{outside}
use nodehub.Protocol.{
  reply_key_eq, ReplyTypes, register_reply_type, new_reply_types, get_reply_type, unpacked,
  unpack_reply,
}
use nodehub.Rpc.Interceptors.{message, reply, pack_reply, log_unary, info, log_request}
use nodehub.Rpc.Interceptors.Packed.{pack_reply-unpack_reply}

abbrev method : String
method = "/chat.Chat/Say"

abbrev codes : Map String ℤ
codes = (method, pos 3) ∷ []

-- A message is a number, which is its encoding; the type 5 decodes it.
abbrev marshal : ℕ → Option (List ℕ)
marshal n = some (n ∷ [])

abbrev unmarshal : ℕ → List ℕ → Option ℕ
unmarshal type [] = none
unmarshal type (n ∷ bytes) = if type == 5 then some n else none

abbrev types : ReplyTypes
types = register_reply_type asks.service_code (pos 3) 5 (new_reply_types 1)

types-say : get_reply_type asks.service_code (pos 3) types ≡ some 5
unfolding get_reply_type register_reply_type new_reply_types Map.load Map.store
types-say = refl

load-none : Map.load {V = ℤ} [] method ≡ none
unfolding Map.load
load-none = refl

load-codes : Map.load codes method ≡ some (pos 3)
unfolding Map.load
load-codes = refl

pack_reply-unpack_reply_example :
    (packed sent : Reply) × (pack_reply {E = ℕ} marshal unmarshal
        (((method, pos 9) ∷ []) ∷ codes ∷ [])
        method
        (ok (message 42))
      ≡ ok (reply packed))
    × (replied outside asks (ok packed) ≡ ok (some sent))
    × (sent.request_id ≡ asks.id)
    × (unpack_reply marshal unmarshal types sent ≡ unpacked 42)
pack_reply-unpack_reply_example =
    pack_reply-unpack_reply outside marshal unmarshal (((method, pos 9) ∷ []) ∷ []) codes method
      (pos 3) 42 (42 ∷ []) asks types 5 (load-none, tt) load-codes refl refl types-say refl

-- The failure of the handler is logged as a success.
log_unary-failure : log_unary {E = ℕ} {R = ℕ} (err 7) ≡ (info, err 7)
unfolding log_unary log_request
log_unary-failure = refl
