-- ===== src/Cluster/Publish/Tests.antt =====
-- A node that is published, changed by a Put that got no answer, and taken back.
use nodehub.Base.{ℕ, String, Option, none, some, List, [], ◌∷◌, Bool, true, false}
use nodehub.Cluster.Entry.{NodeEntry, node_down}
use nodehub.Cluster.Publish.{PutAnswer, stored, lost, Etcd, new_publisher}
use nodehub.Cluster.Publish.Published.{Kept, put_all, put_all-new_Kept}
use nodehub.Cluster.Tests.{first}

abbrev pub hostname : String → Option String
hostname s = none

abbrev pub is_unspecified : String → Bool
is_unspecified s = false

abbrev pub encodes : NodeEntry → Bool
encodes e = true

abbrev pub key : ℕ → String
key id = "/nodehub/node/1"

abbrev pub etcd : PutAnswer → Etcd
etcd answer = record { grant = some 77; keep_alive = true; put = answer }

abbrev puts : List (NodeEntry × Etcd)
puts = (first, etcd stored) ∷ (record first { state = node_down }, etcd lost) ∷ []

put_all-new_Kept_example :
    Kept hostname is_unspecified encodes key
      (put_all hostname is_unspecified encodes key puts new_publisher)
put_all-new_Kept_example =
    put_all-new_Kept hostname is_unspecified encodes key puts (λ e. cc, (λ e. cc, tt))
