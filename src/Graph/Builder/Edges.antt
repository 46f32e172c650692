-- ===== src/Graph/Builder/Edges.antt =====
-- What `AddNode` and `AddEdge` of src/internal/graph/graph.go do to `HasEdge` and `Degree` of the
-- graph that `Build` returns.
use dbexplain.Prelude.{Option, none, some, ◌≡◌, refl}
use dbexplain.Prelude.Text.{Text}
use dbexplain.Prelude.Map.{lookup}
use dbexplain.Graph.{Node}
use dbexplain.Graph.Builder.{Builder, add_node, unless_known}

edges-unless_known :
    (g : Builder) (n : Node) (o : Option Node) → (unless_known g n o).edges ≡ g.edges
unfolding unless_known
edges-unless_known g n none = refl
edges-unless_known g n (some m) = refl

pub edges-add_node :
    (id kind label engine : Text) (g : Builder) → (add_node id kind label engine g).edges ≡ g.edges
unfolding add_node
edges-add_node id kind label engine g =
    edges-unless_known g (record { id = id; kind = kind; label = label; engine = engine })
      (lookup id g.nodes)
