-- ===== src/Cluster/Tests/Services.antt =====
-- Runs of resolver.go.
use nodehub.Base.{◌≡◌, ◌≢◌, refl, subst, some, [], ◌∷◌, true, ok}
use nodehub.Base.Int.{pos, int_eq}
use nodehub.Base.Map
use nodehub.Base.Map.{Map}
use nodehub.Base.Maybe.{Ensures}
use nodehub.Cluster.Balancer.{
  no_balancer, oldest, new_balancer, choose_balancer, policy_of, new_oldest_balancer,
}
use nodehub.Cluster.Balancer.Sort.{sort_slice, insert}
use nodehub.Cluster.Balancer.Pick.{pick}
use nodehub.Cluster.Resolver.{
  remove_entry, remove_services, update_entry, update_services, refresh, update_balancer,
  update_service_nodes, replace_balancer, drop_conn, Resolver, new_grpc_resolver, offers,
  is_available, available, ok_list, update, remove,
}
use nodehub.Cluster.Resolver.Refresh.{IsPublic}
use nodehub.Cluster.Resolver.Kept.{update-remove-Good}
use nodehub.Cluster.Resolver.Good.{
  new_grpc_resolver-Good, Good, KeepsServices, update-Good, remove-Good,
}
use nodehub.Cluster.Resolver.Query.{alloc_node}
use nodehub.Cluster.Resolver.Alloc.{Serves, alloc_node-Serves}
use nodehub.Cluster.Tests.{
  chat, first, second, alice, sum64, addr_bytes, to_lower, registered, registered-AllFactories,
}

-- The resolver that knows the first node, and the one that knows both.
abbrev knows_first : Resolver
knows_first = record {
  services = (pos 1, chat) ∷ [];
  all_nodes = (first.id, first) ∷ [];
  ok_nodes = (pos 1, first ∷ []) ∷ [];
  service_balancer = (pos 1, no_balancer first) ∷ [];
  conns = [];
  next_conn = 0;
  closed = [];
}

abbrev knows_both : Resolver
knows_both = record {
  services = (pos 1, chat) ∷ [];
  all_nodes = (first.id, first) ∷ (second.id, second) ∷ [];
  ok_nodes = (pos 1, first ∷ second ∷ []) ∷ [];
  service_balancer = (pos 1, oldest first) ∷ [];
  conns = [];
  next_conn = 0;
  closed = [];
}

pub KeepsServices-new : KeepsServices new_grpc_resolver first
unfolding new_grpc_resolver Map.load
KeepsServices-new old c h p o = cc

update-first : update to_lower registered first new_grpc_resolver ≡ some knows_first
unfolding update new_grpc_resolver update_entry update_services refresh update_balancer Map.load
    update_service_nodes available Map.store is_available offers replace_balancer ok_list
    new_balancer Map.delete drop_conn choose_balancer sort_slice insert policy_of
    new_oldest_balancer
update-first = refl

knows_first-Good : Good knows_first
knows_first-Good = rw update-first at (
    update-Good to_lower registered registered-AllFactories first new_grpc_resolver
      new_grpc_resolver-Good KeepsServices-new)

KeepsServices-second : KeepsServices knows_first second
unfolding Map.load
KeepsServices-second old c h p o = cc

update-second : update to_lower registered second knows_first ≡ some knows_both
unfolding update update_entry update_services refresh update_balancer Map.load update_service_nodes
    available Map.store is_available offers replace_balancer ok_list new_balancer Map.delete
    drop_conn choose_balancer sort_slice insert policy_of new_oldest_balancer
update-second = refl

knows_both-Good : Good knows_both
knows_both-Good = rw update-second at (
    update-Good to_lower registered registered-AllFactories second knows_first knows_first-Good
      KeepsServices-second)

-- The resolver from which the first node is gone.
abbrev knows_none : Resolver
knows_none = record knows_first { all_nodes = []; ok_nodes = []; service_balancer = [] }

KeepsServices-first : KeepsServices knows_first first
unfolding Map.load
KeepsServices-first old c h p o = subst (λ n. offers c n.grpc.services ≡ true) (same h) o
  where
    same : some first ≡ some old → old ≡ first
    same h = cc

update-remove-Good_example :
    Ensures Good (update to_lower registered first knows_first)
    × Ensures Good (remove to_lower registered first knows_first)
update-remove-Good_example =
    update-remove-Good to_lower registered registered-AllFactories first knows_first
      knows_first-Good KeepsServices-first

remove-first : remove to_lower registered first knows_first ≡ some knows_none
unfolding remove remove_entry remove_services update_entry update_services refresh update_balancer
    Map.load update_service_nodes available Map.store is_available offers replace_balancer ok_list
    new_balancer Map.delete drop_conn choose_balancer sort_slice insert policy_of
    new_oldest_balancer
remove-first = refl

knows_none-Good : Good knows_none
knows_none-Good = rw remove-first at (
    remove-Good to_lower registered registered-AllFactories first knows_first knows_first-Good
      KeepsServices-first)

chat-IsPublic : (r : Resolver) → r.services ≡ (pos 1, chat) ∷ [] → IsPublic r (pos 1)
unfolding Map.load
chat-IsPublic r e = (chat, rw e refl, refl)

allocates_first : alloc_node sum64 addr_bytes knows_both (pos 1) alice 0 ≡ ok first.id
unfolding alloc_node Map.load pick
allocates_first = refl

alloc_node-Serves_example : Serves knows_both (pos 1) first.id
alloc_node-Serves_example =
    alloc_node-Serves sum64 addr_bytes knows_both (pos 1) alice 0 first.id knows_both-Good refl
      (chat-IsPublic knows_both refl) allocates_first

available-none : available (pos 1) knows_none.all_nodes ≡ []
unfolding available
available-none = refl

available-both : available (pos 1) knows_both.all_nodes ≢ []
unfolding available is_available offers
available-both e = cc
