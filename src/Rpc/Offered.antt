-- ===== src/Rpc/Offered.antt =====
-- What a server offers is what the entries of a cluster may hold.
use nodehub.Base.{
  ◌≡◌, ◌≢◌, refl, String, none, List, [], ◌∷◌, string_eq, str_eq_iff, arith, All, Option-cases, inl,
  inr,
}
use nodehub.Base.Int.{ℤ, int_eq}
use nodehub.Base.Map
use nodehub.Base.Map.{Map, IsMap}
use nodehub.Cluster.Entry.{
  GrpcServiceDesc, NodeEntry, validate_desc, validate_services, validate_grpc,
}
use nodehub.Rpc.{
  GrpcServer, new_grpc_server, ServiceOption, describe, register_service, values,
  complete_node_entry,
}

-- The services are valid, and stand under their codes, each code once.
pub record Offered (services : Map ℤ GrpcServiceDesc) : Type 0 where
  pub valid : All (λ p. (p.0 ≡ p.1.code) × (validate_desc p.1 ≡ none)) services
  pub distinct : IsMap services

validate_services-values :
    (services : Map ℤ GrpcServiceDesc)
    → All (λ p. (p.0 ≡ p.1.code) × (validate_desc p.1 ≡ none)) services
    → validate_services (values services) ≡ none
unfolding validate_services values
validate_services-values [] h = refl
validate_services-values ((code, sd) ∷ services) h =
    rw (h.0.1, validate_services) (validate_services-values services h.1)

validate_grpc-services :
    (endpoint : String) (services : List GrpcServiceDesc)
    → endpoint ≢ ""
    → validate_services services ≡ none
    → validate_grpc (record { endpoint = endpoint; services = services }) ≡ none
unfolding validate_grpc
validate_grpc-services endpoint [] e h = refl
validate_grpc-services endpoint (desc ∷ services) e h = ground (arith, h, e, str_eq_iff endpoint "")

module _ (slashed : String → String) where
  register_service-Offered :
      (code : ℤ) (name : String) (options : List ServiceOption) (gs : GrpcServer)
      → Offered gs.services
      → Offered (register_service slashed code name options gs).0.services
  unfolding register_service
  register_service-Offered code name options gs o =
      let sd = describe slashed code name options in
      elim (Option-cases (validate_desc sd)) [
        | inr (e, v) ↦ rw (v, register_service) o
        | inl v ↦ elim (Option-cases (Map.load gs.services sd.code)) [
          | inr (d, l) ↦ rw (v, l, register_service) o
          | inl l ↦
              rw (v, l, register_service)
                (record {
                  valid = Map.All-store _ gs.services sd.code sd (refl, v) o.valid;
                  distinct = Map.store-IsMap gs.services sd.code sd o.distinct;
                })
        ]
      ]

  unfoldable pub register_all : List (ℤ × (String × List ServiceOption)) → GrpcServer → GrpcServer
  register_all [] gs = gs
  register_all ((code, (name, options)) ∷ services) gs =
      register_all services (register_service slashed code name options gs).0

  register_all-Offered :
      (services : List (ℤ × (String × List ServiceOption))) (gs : GrpcServer)
      → Offered gs.services
      → Offered (register_all services gs).services
  unfolding register_all
  register_all-Offered [] gs o = o
  register_all-Offered ((code, (name, options)) ∷ services) gs o =
      register_all-Offered services (register_service slashed code name options gs).0
        (register_service-Offered code name options gs o)

  new_grpc_server-Offered : (addr : String) → Offered (new_grpc_server addr).services
  unfolding new_grpc_server
  new_grpc_server-Offered addr = record { valid = tt; distinct = tt }

  -- After any registrations of services on a new server, refused ones included: each service
  -- stands under its own code, no code twice, and the entry that the server completes passes its
  -- check, if the server has an endpoint or an address to listen to.
  pub register_all-valid :
      (services : List (ℤ × (String × List ServiceOption))) (addr : String) (entry : NodeEntry)
      → let gs = register_all services (new_grpc_server addr) in
        let grpc = (complete_node_entry gs entry).grpc in
        Offered gs.services × (grpc.endpoint ≢ "" → validate_grpc grpc ≡ none)
  unfolding complete_node_entry
  register_all-valid services addr entry =
      let gs = register_all services (new_grpc_server addr) in
      let o = register_all-Offered services (new_grpc_server addr) (new_grpc_server-Offered addr) in
      (
        o,
        λ e.
            validate_grpc-services _ (values gs.services) e
              (validate_services-values gs.services o.valid),
      )
