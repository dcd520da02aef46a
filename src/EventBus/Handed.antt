-- ===== src/EventBus/Handed.antt =====
-- An event is handed to the subscribers of its type.
use nodehub.Base.{
  ◌≡◌, ◌≢◌, refl, ap, subst, ℕ, String, Option, none, some, List, [], ◌∷◌, Bool, nat_eq, string_eq,
  str_eq_iff, arith, Option-cases, inl, inr,
}
use nodehub.Base.Map
use nodehub.Base.Map.{load-store}
use nodehub.EventBus.{
  GoType, deref, Names, register, register_all, Payload, Event, new_payload, subscribe, hand,
}

-- The name of a type leads back to the type, unless the type has another name by now.
abbrev Named : Names → Type 0
Named n = (t : ℕ) (name : String) → Map.load n.types t ≡ some name → Map.load n.events name ≡ some t

stored-Named :
    (name : String) (d : ℕ) (n : Names)
    → Named n
    → Map.load n.events name ≡ none
    → Named (record { events = Map.store n.events name d; types = Map.store n.types d name })
stored-Named name d n k f t other e = ground (
  arith,
  e,
  f,
  k t other,
  load-store n.types d t name,
  load-store n.events name other d,
  str_eq_iff name other,
)

register_all-Named :
    (events : List (String × GoType)) (n n' : Names)
    → register_all events n ≡ some n'
    → Named n
    → Named n'
unfolding register_all register
register_all-Named [] n n' h k = subst Named (cc h) k
register_all-Named ((name, ev) ∷ events) n n' h k = elim (Option-cases (Map.load n.events name)) [
  | inr (x, f) ↦ cc (rw (f, register_all, register) at h)
  | inl f ↦
      let stored : Names = record {
        events = Map.store n.events name (deref ev);
        types = Map.store n.types (deref ev) name;
      } in
      register_all-Named events stored n' (rw (f, register_all, register) at h)
        (stored-Named name (deref ev) n k f)
]

abbrev pub no_names : Names
no_names = record { events = []; types = [] }

no_names-Named : Named no_names
unfolding Map.load
no_names-Named t name e = cc

module _ {V : Type 0} (marshal : V → Option (List ℕ)) (encode : Payload → Option (List ℕ))
    (unmarshal : GoType → List ℕ → Option V) (enqueues : List ℕ → Bool) where
  new_payload-cases :
      (n : Names) (now : ℕ) (ev : Event V) (p : Payload)
      → new_payload marshal encode unmarshal enqueues n now ev ≡ some p
      → (Map.load n.types (deref ev.go_type) ≡ some p.event_type)
        × (marshal ev.value ≡ some p.detail)
        × (p.time ≡ now)
  unfolding new_payload
  new_payload-cases n now ev p h = elim (Option-cases (Map.load n.types (deref ev.go_type))) [
    | inl e ↦ cc (rw (e, new_payload) at h)
    | inr (name, e) ↦ elim (Option-cases (marshal ev.value)) [
      | inl f ↦ cc (rw (e, f, new_payload) at h)
      | inr (detail, f) ↦ taken name detail e f (rw (e, f, new_payload) at h)
    ]
  ]
    where
      taken :
          (name : String) (detail : List ℕ)
          → Map.load n.types (deref ev.go_type) ≡ some name
          → marshal ev.value ≡ some detail
          → ◌≡◌ {A = Option Payload}
              (some (record { time = now; event_type = name; detail = detail }))
              (some p)
          → (Map.load n.types (deref ev.go_type) ≡ some p.event_type)
            × (marshal ev.value ≡ some p.detail)
            × (p.time ≡ now)
      taken name detail e f q =
          subst
            (λ (x : Payload).
              (Map.load n.types (deref ev.go_type) ≡ some x.event_type)
              × (marshal ev.value ≡ some x.detail)
              × (x.time ≡ now))
            (cc q) (e, f, refl)

  -- After registrations of which none panicked, those of a type under several names included, and
  -- where json.Unmarshal reads back what json.Marshal wrote, into the type or a pointer to it: the
  -- payload of an event is handed, with the event's value and time, to each subscriber of its type,
  -- and to no subscriber of another.
  pub hand-new_payload :
      (events : List (String × GoType)) (n : Names) (now : ℕ) (ev : Event V) (p : Payload)
      (first_arg : GoType) (name : String)
      → register_all events no_names ≡ some n
      → ((t : GoType) (b : List ℕ)
          → deref t ≡ deref ev.go_type
          → marshal ev.value ≡ some b
          → unmarshal t b ≡ some ev.value)
      → new_payload marshal encode unmarshal enqueues n now ev ≡ some p
      → subscribe marshal encode unmarshal enqueues n first_arg ≡ some name
      → (deref first_arg ≡ deref ev.go_type
          → hand marshal encode unmarshal enqueues first_arg name p ≡ some (ev.value, now))
        × (deref first_arg ≢ deref ev.go_type
            → hand marshal encode unmarshal enqueues first_arg name p ≡ none)
  unfolding subscribe hand
  hand-new_payload events n now ev p first_arg name r inv h s =
      let k = register_all-Named events no_names n r no_names-Named in
      let (e, f, w) = new_payload-cases n now ev p h in
      (
        λ same.
            let u = inv first_arg p.detail same f in
            let q : p.event_type ≡ name = cc (e, s, ap (Map.load n.types) same) in
            ground (arith, u, w, q, str_eq_iff p.event_type name),
        λ other.
            let q : p.event_type ≢ name = λ z. other (
              cc (
                k (deref first_arg) name s,
                k (deref ev.go_type) p.event_type e,
                ap (Map.load n.events) z,
              )) in
            ground (arith, q, str_eq_iff p.event_type name),
      )
