-- ===== src/Examples/Graph.antt =====
-- The queries of src/internal/graph/graph.go on a small graph.
use dbexplain.Prelude.{map, any, some, ◌≡◌, ◌&&◌, ◌==◌, refl, [], ◌∷◌, List, keep, true}
use dbexplain.Prelude.Text.{Text, codes, text_eq, one_of}
use dbexplain.Graph.{Node, Edge, isolated, connected, degree, has_edge, isolated-degree, kind_table}
use dbexplain.Graph.Neighbors.{neighbors, joins, neighbors-joins}
use dbexplain.Graph.Builder.{Builder, new, add_node, add_edge, build, add_node-add_node}
use dbexplain.Graph.Builder.Calls.{
  Call, node_call, edge_call, run, first_node, called_edges, run-first_node,
}
use dbexplain.Prelude.Map.{lookup}

abbrev nodes : List Node
nodes =
    record { id = codes "i/d/a"; kind = codes "table"; label = codes "a"; engine = codes "mysql" }
    ∷ record { id = codes "i/d/b"; kind = codes "table"; label = codes "b"; engine = codes "mysql" }
    ∷ record { id = codes "i"; kind = codes "instance"; label = codes "i"; engine = codes "mysql" }
    ∷ []

abbrev edges : List Edge
edges =
    record {
      source = codes "i/d/a";
      target = codes "i/d/c";
      type = codes "declared_fk";
      confidence = 100;
    }
    ∷ []

isolated_b :
    isolated nodes edges
    ≡ record { id = codes "i/d/b"; kind = codes "table"; label = codes "b"; engine = codes "mysql" }
      ∷ []
unfolding isolated connected
isolated_b = refl

isolated-degree_example :
    isolated nodes edges ≡ keep (λ n. text_eq n.kind kind_table && (degree edges n.id == 0)) nodes
isolated-degree_example = isolated-degree nodes edges

has_edge_a : has_edge edges (codes "i/d/a") (codes "i/d/c") (codes "declared_fk") ≡ true
unfolding has_edge
has_edge_a = refl

neighbors_c : neighbors edges (codes "i/d/c") ≡ codes "i/d/a" ∷ []
unfolding neighbors
neighbors_c = refl

neighbors-joins_example :
    (one_of (codes "i/d/c") (neighbors edges (codes "i/d/a"))
      ≡ any (joins (codes "i/d/a") (codes "i/d/c")) edges)
    × (one_of (codes "i/d/c") (neighbors edges (codes "i/d/a"))
        ≡ one_of (codes "i/d/a") (neighbors edges (codes "i/d/c")))
neighbors-joins_example = neighbors-joins (codes "i/d/a") (codes "i/d/c") edges

abbrev small_graph : Builder
unfolding add_node add_edge
small_graph = add_edge (codes "i/d/b") (codes "i/d/a") (codes "declared_fk") 100 (
    add_node (codes "i/d/a") (codes "table") (codes "a") (codes "mysql")
      (add_node (codes "i/d/b") (codes "table") (codes "b") (codes "mysql") new))

-- `AddNode` a second time for an id, with an edge in between.
abbrev calls : List Call
calls =
    node_call (codes "i/d/a") (codes "table") (codes "a") (codes "mysql")
    ∷ edge_call (codes "i/d/a") (codes "i/d/b") (codes "declared_fk") 100
    ∷ node_call (codes "i/d/a") (codes "instance") (codes "other") (codes "redis")
    ∷ []

twice_added :
    lookup (codes "i/d/a") (run calls new).nodes
    ≡ some (record {
      id = codes "i/d/a";
      kind = codes "table";
      label = codes "a";
      engine = codes "mysql";
    })
unfolding run
twice_added = refl

run-first_node_example :
    ((k : Text) → lookup k (run calls new).nodes ≡ first_node k calls)
    × ((build (run calls new)).1 ≡ called_edges calls)
run-first_node_example = run-first_node calls

add_node-add_node_example :
    add_node
      (codes "i")
      (codes "key")
      (codes "j")
      (codes "redis")
      (add_node (codes "i") (codes "table") (codes "i") (codes "mysql") small_graph)
    ≡ add_node (codes "i") (codes "table") (codes "i") (codes "mysql") small_graph
add_node-add_node_example =
    add_node-add_node (codes "i") (codes "table") (codes "key") (codes "i") (codes "j")
      (codes "mysql") (codes "redis") small_graph

built_in_order : map (λ n. n.label) (build small_graph).0 ≡ codes "a" ∷ codes "b" ∷ []
unfolding small_graph build
built_in_order = refl
