-- ===== src/Cluster/Publish.antt =====
-- cluster/registry.go: Put, the lease that the entries of a node hang on, and Close.
pub mod Published
pub mod Tests
use nodehub.Base.{
  ℕ, String, Option, none, some, List, [], ◌∷◌, Bool, true, false, not, ◌&&◌, ◌==◌, nat_eq,
  string_eq, if◌then◌else◌, Outcome, ok, err, panic,
}
use nodehub.Base.Int.{ℤ, pos, negsuc}
use nodehub.Base.Map
use nodehub.Base.Map.{Map}
use nodehub.Cluster.Entry.{NodeEntry, EntryError, validate}

-- `clientv3.NoLease`
abbrev pub no_lease : ℕ
no_lease = 0

-- The fields that Put uses, and what etcd keeps under the prefix: an entry and its lease.
pub record Publisher : Type 0 where
  pub lease_id : ℕ
  pub published : Map String (NodeEntry × ℕ)
  pub client_closed : Bool

-- A Put that is answered by an error, as on a timeout, may have been applied all the same.
pub data PutAnswer : Type 0 where
  stored refused lost : PutAnswer

-- What etcd answers: the lease that it grants, whether it is kept alive, and to the Put.
pub record Etcd : Type 0 where
  pub grant : Option ℕ
  pub keep_alive : Bool
  pub put : PutAnswer

pub data PutError : Type 0 where
  entry_invalid : EntryError → PutError
  not_encoded not_granted not_kept not_stored : PutError

unfoldable pub init_lease : Etcd → Publisher → Publisher × Option PutError
init_lease e r = if not (r.lease_id == no_lease) then (r, none) else elim e.grant [
  | none ↦ (r, some not_granted)
  | some id ↦ if e.keep_alive then (record r { lease_id = id }, none) else (r, some not_kept)
]

unfoldable pub write : String → NodeEntry → Etcd → Publisher → Publisher × Option PutError
write key entry e r =
    let after = record r { published = Map.store r.published key (entry, r.lease_id) } in
    elim e.put [
      | stored ↦ (after, none)
      | refused ↦ (r, some not_stored)
      | lost ↦ (after, some not_stored)
    ]

-- Parameters: those of Validate, whether `json.Marshal` takes the entry, and the key of an
-- identity below the prefix.
module _ (hostname : String → Option String) (is_unspecified : String → Bool)
    (encodes : NodeEntry → Bool) (key : ℕ → String) where
  unfoldable pub leased :
      NodeEntry → Etcd → Publisher × Option PutError → Publisher × Option PutError
  leased entry e (r, some error) = (r, some error)
  leased entry e (r, none) = write (key entry.id) entry e r

  unfoldable pub put : NodeEntry → Etcd → Publisher → Publisher × Option PutError
  put entry e r = elim (validate hostname is_unspecified entry) [
    | some error ↦ (r, some (entry_invalid error))
    | none ↦ if encodes entry then leased entry e (init_lease e r) else (r, some not_encoded)
  ]

-- What the goroutine of a lease hears.
pub data KeeperEvent : Type 0 where
  kept_alive keeping_ended client_done check_failed : KeeperEvent
  checked : ℤ → KeeperEvent

pub data Keeper : Type 0 where
  keeping returned panicked : Keeper

unfoldable pub keep : KeeperEvent → Keeper
keep kept_alive = keeping
keep keeping_ended = panicked
keep client_done = returned
keep check_failed = keeping
keep (checked (pos ttl)) = keeping
keep (checked (negsuc ttl)) = panicked

-- The entries of a lease go with it.
unfoldable pub revoke : ℕ → Map String (NodeEntry × ℕ) → Map String (NodeEntry × ℕ)
revoke lease [] = []
revoke lease ((key, (entry, id)) ∷ published) =
    let rest = revoke lease published in if id == lease then rest else (key, (entry, id)) ∷ rest

-- `revoked` is whether etcd takes the revocation, whose error is not looked at; the connections of
-- the resolver are closed by Resolver.Query.close.
unfoldable pub close_registry : Bool → Publisher → Publisher
close_registry revoked r = record r {
  published =
      if not (r.lease_id == no_lease) && revoked
      then revoke r.lease_id r.published
      else r.published;
  client_closed = true;
}

unfoldable pub new_publisher : Publisher
new_publisher = record { lease_id = no_lease; published = []; client_closed = false }
