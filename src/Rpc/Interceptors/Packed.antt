-- ===== src/Rpc/Interceptors/Packed.antt =====
-- From a handler through PackReply and the gateway to UnpackReply of the client; and from the
-- gateway to what a handler reads in its context.
use nodehub.Base.{
  ◌≡◌, refl, ℕ, String, Option, none, some, List, [], ◌∷◌, ◌++◌, false, string_eq, ok, arith,
  nat_eq,
}
use nodehub.Base.Int.{ℤ, pos}
use nodehub.Base.Map
use nodehub.Base.Map.{Map, IsMap, load-store}
use nodehub.Cluster.Balancer.{Session}
use nodehub.Gateway.Lifecycle.{Metadata}
use nodehub.Gateway.Proxy.{Proxy, Request}
use nodehub.Gateway.Requests.{
  Call, Reply, Outside, Answers, replied, handle_request, md_sess_id, md_gateway,
}
use nodehub.Gateway.Requests.Guarded.{handle_request-Guarded}
use nodehub.Protocol.{ReplyTypes, get_reply_type, unpacked, unpack_reply, new_reply}
use nodehub.Rpc.Interceptors.{
  message, reply, pack, pack_reply, assign, assign_one, first_value, session_id_in_context,
  gateway_id_in_context,
}

load-assign_one :
    (codes later : Map String ℤ) (method : String)
    → IsMap later
    → Map.load (assign_one codes later) method
      ≡ (elim (Map.load later method) [ some c ↦ some c | none ↦ Map.load codes method ])
unfolding assign_one Map.load
load-assign_one codes [] method h = refl
load-assign_one codes ((m, c) ∷ later) method h = ground (
  arith,
  string_eq.same_iff m method,
  h.0,
  load-assign_one (Map.store codes m c) later method h.1,
  load-store codes m method c,
)

assign-snoc :
    (reply_codes : List (Map String ℤ)) (last codes : Map String ℤ)
    → assign (reply_codes ++ last ∷ []) codes ≡ assign_one (assign reply_codes codes) last
unfolding assign
assign-snoc [] last codes = refl
assign-snoc (later ∷ reply_codes) last codes = assign-snoc reply_codes last (assign_one codes later)

-- The code of a method is that of the last map that has the method.
load-assign_last :
    (reply_codes : List (Map String ℤ)) (last : Map String ℤ) (method : String) (code : ℤ)
    → IsMap last
    → Map.load last method ≡ some code
    → Map.load (assign (reply_codes ++ last ∷ []) []) method ≡ some code
load-assign_last reply_codes last method code h e =
    rw (assign-snoc reply_codes last [], load-assign_one (assign reply_codes []) last method h, e)
      refl

module _ {E X M : Type 0} (o : Outside E) (marshal : M → Option (List ℕ))
    (unmarshal : ℕ → List ℕ → Option M) where
  -- A handler answers a message that can be encoded, for a method to which the last of PackReply's
  -- maps gives a code; the client asked for a reply, and knows the type of the code for the service,
  -- into which the encoding decodes as the message. Then PackReply makes a reply of it, which the
  -- gateway sends under the request's identity and service, and the client unpacks the message.
  pub pack_reply-unpack_reply :
      (earlier : List (Map String ℤ)) (codes : Map String ℤ) (method : String) (code : ℤ) (msg : M)
      (bytes : List ℕ) (req : Request) (types : ReplyTypes) (type : ℕ)
      → IsMap codes
      → Map.load codes method ≡ some code
      → marshal msg ≡ some bytes
      → unmarshal type bytes ≡ some msg
      → get_reply_type req.service_code code types ≡ some type
      → req.no_reply ≡ false
      → (packed sent : Reply) × (pack_reply {E = X} marshal unmarshal
            (earlier ++ codes ∷ [])
            method
            (ok (message msg))
          ≡ ok (reply packed))
        × (replied o req (ok packed) ≡ ok (some sent))
        × (sent.request_id ≡ req.id)
        × (unpack_reply marshal unmarshal types sent ≡ unpacked msg)
  unfolding pack_reply pack replied unpack_reply new_reply
  pack_reply-unpack_reply earlier codes method code msg bytes req types type m c e d t n =
      let packed : Reply = record {
        request_id = 0;
        service_code = pos 0;
        code = code;
        payload = bytes;
      } in
      (
        packed,
        record packed { request_id = req.id; service_code = req.service_code },
        rw (load-assign_last earlier codes method code m c, pack_reply, pack, new_reply, e) refl,
        rw (n, replied) refl,
        refl,
        rw (t, unpack_reply, d) refl,
      )

first_value-load :
    (md : Metadata) (key v : String) (vs : List String)
    → Map.load md key ≡ some (v ∷ vs)
    → first_value md key ≡ some v
unfolding first_value
first_value-load md key v vs e = rw (e, first_value) refl

-- Whatever identity the metadata of the session claim: in the context of the call that a request
-- comes to, SessionIDInContext finds the session, and GatewayIDInContext this gateway, if its
-- identity is one that can be parsed.
pub handle_request-in_context :
    {E : Type 0} (o : Outside E) (p : Proxy) (sess : Session) (req : Request) (a : Answers E)
    (call : Call) (rest : List Call) (gateway : ℕ)
    → o.parse_id o.node_id ≡ some gateway
    → (handle_request o p sess req a).0.calls ≡ call ∷ rest
    → (session_id_in_context call.metadata ≡ some sess.id)
      × (gateway_id_in_context o.parse_id call.metadata ≡ some gateway)
unfolding session_id_in_context gateway_id_in_context
handle_request-in_context o p sess req a call rest gateway g e =
    let called = (handle_request-Guarded o p sess req a call rest e).called in
    (
      first_value-load call.metadata md_sess_id sess.id [] called.from_session,
      rw
          (
            first_value-load call.metadata md_gateway o.node_id [] called.from_gateway,
            gateway_id_in_context,
          )
          g,
    )
