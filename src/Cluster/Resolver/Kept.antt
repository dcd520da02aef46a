-- ===== src/Cluster/Resolver/Kept.antt =====
-- Both calls that change a resolver.
use nodehub.Base.{String}
use nodehub.Base.Map.{Map}
use nodehub.Base.Maybe.{Ensures}
use nodehub.Cluster.Entry.{NodeEntry}
use nodehub.Cluster.Balancer.{BalancerFactory}
use nodehub.Cluster.Balancer.Members.{AllFactories}
use nodehub.Cluster.Resolver.{Resolver, update, remove}
use nodehub.Cluster.Resolver.Good.{Good, KeepsServices, update-Good, remove-Good}

-- Where each registered policy makes balancers of the nodes it is given and does not panic on some,
-- neither an update of a good resolver by a node with the services it was known by panics, nor its
-- removal, and both leave a good resolver: the nodes stand once, under their identities, and each
-- service of the cluster has exactly the available nodes and, if it is public, a balancer of them,
-- or none if there are no nodes.
pub update-remove-Good :
    (to_lower : String → String) (registered : Map String BalancerFactory)
    (all : AllFactories registered) (node : NodeEntry) (r : Resolver)
    → Good r
    → KeepsServices r node
    → Ensures Good (update to_lower registered node r)
      × Ensures Good (remove to_lower registered node r)
update-remove-Good to_lower registered all node r g keeps = (
  update-Good to_lower registered all node r g keeps,
  remove-Good to_lower registered all node r g keeps,
)
