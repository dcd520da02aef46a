-- ===== src/Cluster/Entry/Valid.antt =====
-- What the checks of entry.go let through, against a description of it.
use nodehub.Base.{
  ◌≡◌, ◌≢◌, ◌↔◌, ◌⊎◌, inl, inr, refl, String, Option, none, some, List, [], ◌∷◌, Bool, true, false,
  ◌==◌, nat_eq, string_eq, if◌then◌else◌, All, arith, str_eq_iff, Option-cases, Bool-cases,
  nat_beq_iff,
}
use nodehub.Base.Int.{pos, int_eq}
use nodehub.Cluster.Entry.{
  entrance_without_host, entrance_unspecified, endpoint_empty, id_empty, name_empty, state_empty,
  GrpcServiceDesc, GrpcEntry, NodeEntry, auto_allocate, server_allocate, client_allocate,
  validate_desc, validate_services, validate_grpc, validate_entrance, validate, ulid_time,
}

pub record IsDesc (desc : GrpcServiceDesc) : Type 0 where
  pub has_code : desc.code ≢ pos 0
  pub has_path : desc.path ≢ ""
  pub has_balancer : desc.balancer ≢ ""
  pub allocated :
      desc.stateful ≡ true
      → (desc.allocation ≡ auto_allocate)
        ⊎ (desc.allocation ≡ server_allocate)
        ⊎ (desc.allocation ≡ client_allocate)

-- The check of a service passes exactly the descriptions with a code, a path and a balancer, whose
-- allocation is one of the three if the service is stateful.
pub validate_desc_iff : (desc : GrpcServiceDesc) → (validate_desc desc ≡ none) ↔ IsDesc desc
unfolding validate_desc
validate_desc_iff desc = ground (
  arith,
  str_eq_iff desc.path "",
  str_eq_iff desc.balancer "",
  str_eq_iff desc.allocation auto_allocate,
  str_eq_iff desc.allocation server_allocate,
  str_eq_iff desc.allocation client_allocate,
)

-- A check that fails first on `T` and then as `o` does.
module _ {T Q : Type 0} {E : Type 0} (x : E) where
  guard_iff :
      (b : Bool) (o : Option E)
      → (b ≡ true) ↔ T
      → (o ≡ none) ↔ Q
      → ((if b then some x else o) ≡ none) ↔ ((¬ T) × Q)
  guard_iff true o t q = ((λ h. cc), (λ h. absurd (h.0 (t.0 refl))))
  guard_iff false o t q = ((λ h. ((λ u. cc (t.1 u)), q.0 h)), (λ h. q.1 h.1))

-- A check that fails as `m` does and then as `o` does.
then_iff :
    {P Q : Type 0} {E : Type 0} (m o : Option E)
    → (m ≡ none) ↔ P
    → (o ≡ none) ↔ Q
    → ((elim m [ some x ↦ some x | none ↦ o ]) ≡ none) ↔ (P × Q)
then_iff none o p q = ((λ h. (p.0 refl, q.0 h)), (λ h. q.1 h.1))
then_iff (some x) o p q = ((λ h. cc), (λ h. cc (p.1 h.0)))

abbrev pub IsGrpc : GrpcEntry → Type 0
IsGrpc e = (e.services ≡ []) ⊎ ((e.endpoint ≢ "") × All IsDesc e.services)

validate_services_iff :
    (services : List GrpcServiceDesc) → (validate_services services ≡ none) ↔ All IsDesc services
unfolding validate_services
validate_services_iff [] = ((λ _. tt), (λ _. refl))
validate_services_iff (desc ∷ services) =
    let (a, b) = validate_desc_iff desc in
    let (c, d) = validate_services_iff services in
    elim (Option-cases (validate_desc desc)) [
      | inl e ↦ rw (e, validate_services) ((λ h. (a e, c h)), (λ h. d h.1))
      | inr (x, e) ↦ rw (e, validate_services) ((λ h. cc), (λ h. cc (b h.0)))
    ]

validate_grpc_iff : (e : GrpcEntry) → (validate_grpc e ≡ none) ↔ IsGrpc e
unfolding validate_grpc
validate_grpc_iff e = go e.endpoint e.services
  where
    go :
        (endpoint : String) (services : List GrpcServiceDesc)
        → (validate_grpc (record { endpoint = endpoint; services = services }) ≡ none)
          ↔ IsGrpc (record { endpoint = endpoint; services = services })
    go endpoint [] = ((λ _. inl refl), (λ _. refl))
    go endpoint (desc ∷ services) =
        let (a, b) =
          guard_iff endpoint_empty (endpoint == "") (validate_services (desc ∷ services))
            (str_eq_iff endpoint "") (validate_services_iff (desc ∷ services)) in
        ((λ h. inr (a h)), elim [ inl n ↦ cc | inr h ↦ b h ])

module _ (hostname : String → Option String) (is_unspecified : String → Bool) where
  abbrev pub IsEntrance : String → Type 0
  IsEntrance entrance =
      (entrance ≡ "")
      ⊎ ((host : String) × (hostname entrance ≡ some host)
          × (host ≢ "")
          × (is_unspecified host ≡ false))

  validate_host_iff :
      (host : String)
      → ((if host == ""
            then some entrance_without_host
            else if is_unspecified host
            then some entrance_unspecified
            else none)
          ≡ none)
        ↔ ((host ≢ "") × (is_unspecified host ≡ false))
  validate_host_iff host =
      let (a, b) =
        guard_iff {T = host ≡ ""} {Q = is_unspecified host ≡ false} entrance_without_host
          (host == "") (if is_unspecified host then some entrance_unspecified else none)
          (str_eq_iff host "") (ground arith) in
      (a, b)

  validate_entrance_iff :
      (entrance : String)
      → (validate_entrance hostname is_unspecified entrance ≡ none) ↔ IsEntrance entrance
  unfolding validate_entrance
  validate_entrance_iff entrance = elim (Bool-cases (entrance == "")) [
    | inl e ↦ rw e ((λ _. inl ((str_eq_iff entrance "").0 e)), (λ _. refl))
    | inr n ↦ elim (Option-cases (hostname entrance)) [
      | inl e ↦
          rw (n, e)
            ((λ h. cc), elim [ inl m ↦ cc ((str_eq_iff entrance "").1 m) | inr (h, q, _, _) ↦ cc ])
      | inr (host, e) ↦
          let (a, b) = validate_host_iff host in
          rw (n, e)
            (
              (λ h. inr (host, refl, (a h).0, (a h).1)),
              elim [
                | inl m ↦ cc ((str_eq_iff entrance "").1 m)
                | inr (h, q, c, d) ↦ b ((λ z. c (cc)), cc)
              ],
            )
    ]
  ]

  pub record IsEntry (e : NodeEntry) : Type 0 where
    pub has_id : ulid_time e.id ≢ 0
    pub has_name : e.name ≢ ""
    pub has_state : e.state ≢ ""
    pub has_grpc : IsGrpc e.grpc
    pub has_entrance : IsEntrance e.entrance

  -- The check of an entry passes exactly the entries with an identity, a name and a state, with a
  -- gRPC endpoint and valid services if there are services, and with an entrance, if any, at a
  -- host that is not an unspecified address.
  pub validate_iff : (e : NodeEntry) → (validate hostname is_unspecified e ≡ none) ↔ IsEntry e
  unfolding validate
  validate_iff e =
      let checks =
        then_iff (validate_grpc e.grpc) (validate_entrance hostname is_unspecified e.entrance)
          (validate_grpc_iff e.grpc) (validate_entrance_iff e.entrance) in
      let (a, b) = guard_iff id_empty (ulid_time e.id == 0) _ (nat_beq_iff (ulid_time e.id) 0) (
        guard_iff name_empty (e.name == "") _ (str_eq_iff e.name "")
          (guard_iff state_empty (e.state == "") _ (str_eq_iff e.state "") checks)) in
      (
        (λ h.
            let (i, n, s, g, t) : (ulid_time e.id ≢ 0)
                × (e.name ≢ "")
                × (e.state ≢ "")
                × IsGrpc e.grpc
                × IsEntrance e.entrance =
              ((a h).0, (a h).1.0, (a h).1.1.0, (a h).1.1.1.0, (a h).1.1.1.1) in
            record { has_id = i; has_name = n; has_state = s; has_grpc = g; has_entrance = t }),
        (λ h. b (h.has_id, (h.has_name, (h.has_state, (h.has_grpc, h.has_entrance))))),
      )
