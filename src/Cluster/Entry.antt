-- ===== src/Cluster/Entry.antt =====
-- cluster/entry.go: what a node publishes about itself.
pub mod Valid
use nodehub.Base.{
  ℕ, ◌/◌, ◌^◌, String, Option, none, some, List, [], ◌∷◌, Bool, true, false, ◌&&◌, ◌||◌, not, ◌==◌,
  nat_eq, string_eq, if◌then◌else◌,
}
use nodehub.Base.Int.{ℤ, pos, int_eq}

-- `NodeState` is a string.
abbrev pub node_ok : String
node_ok = "ok"

abbrev pub node_lazy : String
node_lazy = "lazy"

abbrev pub node_down : String
node_down = "down"

abbrev pub auto_allocate : String
auto_allocate = "auto"

abbrev pub server_allocate : String
server_allocate = "server"

abbrev pub client_allocate : String
client_allocate = "client"

pub record GrpcServiceDesc : Type 0 where
  pub name : String
  pub code : ℤ
  pub path : String
  pub public : Bool
  pub balancer : String
  pub weight : ℤ
  pub stateful : Bool
  pub allocation : String

pub record GrpcEntry : Type 0 where
  pub endpoint : String
  pub services : List GrpcServiceDesc

-- A ULID is the number that its 16 bytes spell, big end first: `Compare` is the order of the
-- numbers, and the first 6 bytes are its time.
pub record NodeEntry : Type 0 where
  pub id : ℕ
  pub name : String
  pub state : String
  pub entrance : String
  pub metrics : String
  pub grpc : GrpcEntry
  pub git_version : String

abbrev pub ulid_time : ℕ → ℕ
ulid_time id = id / 2 ^ 80

pub data EntryError : Type 0 where
  code_empty path_empty balancer_empty allocation_empty allocation_invalid : EntryError
  endpoint_empty id_empty name_empty state_empty : EntryError
  entrance_invalid entrance_without_host entrance_unspecified : EntryError

unfoldable pub validate_allocation : String → Option EntryError
validate_allocation allocation =
    if allocation == auto_allocate || allocation == server_allocate || allocation == client_allocate
    then none
    else if allocation == ""
    then some allocation_empty
    else some allocation_invalid

-- `GRPCServiceDesc.Validate`
unfoldable pub validate_desc : GrpcServiceDesc → Option EntryError
unfolding validate_allocation
validate_desc desc =
    if desc.code == pos 0
    then some code_empty
    else if desc.path == ""
    then some path_empty
    else if desc.balancer == ""
    then some balancer_empty
    else if desc.stateful
    then validate_allocation desc.allocation
    else none

unfoldable pub validate_services : List GrpcServiceDesc → Option EntryError
validate_services [] = none
validate_services (desc ∷ services) = elim (validate_desc desc) [
  | some e ↦ some e
  | none ↦ validate_services services
]

-- `GRPCEntry.Validate`
unfoldable pub validate_grpc : GrpcEntry → Option EntryError
validate_grpc e = elim e.services [
  | [] ↦ none
  | desc ∷ services ↦
      if e.endpoint == "" then some endpoint_empty else validate_services (desc ∷ services)
]

-- Parameters: the host that `url.Parse` and `Hostname` find, if the text is a URL, and whether
-- `netip.ParseAddr` reads a text as an address that is unspecified when unmapped.
module _ (hostname : String → Option String) (is_unspecified : String → Bool) where
  unfoldable pub validate_entrance : String → Option EntryError
  validate_entrance entrance = if entrance == "" then none else elim (hostname entrance) [
    | none ↦ some entrance_invalid
    | some host ↦
        if host == ""
        then some entrance_without_host
        else if is_unspecified host
        then some entrance_unspecified
        else none
  ]

  -- `NodeEntry.Validate`
  unfoldable pub validate : NodeEntry → Option EntryError
  validate e =
      if ulid_time e.id == 0
      then some id_empty
      else if e.name == ""
      then some name_empty
      else if e.state == ""
      then some state_empty
      else elim (validate_grpc e.grpc) [
        | some error ↦ some error
        | none ↦ validate_entrance e.entrance
      ]
