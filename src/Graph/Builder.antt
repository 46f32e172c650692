-- ===== src/Graph/Builder.antt =====
-- The builder of src/internal/graph/graph.go: `New`, `AddNode`, `AddEdge`, and `Build`, without
-- columns and metadata.
pub mod Calls
pub mod Edges
use dbexplain.Prelude.{
  ℕ, List, [], ◌∷◌, ◌++◌, Option, none, some, map, Option-cases, Bool-cases, if-true, if-false, ◌≡◌,
  inl, inr, sym, ap, ◌∙◌,
}
use dbexplain.Prelude.Text.{Text, text_eq, text_eq→eq, text_eq_refl}
use dbexplain.Prelude.Map.{lookup, insert, IsMap, insert-IsMap, lookup-insert}
use dbexplain.Prelude.Sort.{sort_by}
use dbexplain.Graph.{Node, Edge}

pub record Builder : Type 0 where
  pub nodes : List (Text × Node)
  pub edges : List Edge

abbrev pub new : Builder
new = record { nodes = []; edges = [] }

abbrev pub unless_known : Builder → Node → Option Node → Builder
unfolding insert
unless_known g n (some m) = g
unless_known g n none = record g { nodes = insert n.id n g.nodes }

unfoldable pub add_node : Text → Text → Text → Text → Builder → Builder
unfolding unless_known lookup
add_node id kind label engine g =
    unless_known g (record { id = id; kind = kind; label = label; engine = engine })
      (lookup id g.nodes)

unfoldable pub add_edge : Text → Text → Text → ℕ → Builder → Builder
add_edge source target type confidence g = record g {
  edges =
      g.edges
      ++ (record { source = source; target = target; type = type; confidence = confidence }) ∷ [];
}

unfoldable pub build : Builder → List Node × List Edge
unfolding sort_by
build g = (sort_by (λ n. n.id) (map (λ (k, n). n) g.nodes), g.edges)

add_node_known :
    (id kind label engine : Text) (g : Builder) (n : Node)
    → lookup id g.nodes ≡ some n
    → add_node id kind label engine g ≡ g
unfolding add_node
add_node_known id kind label engine g n e =
    ap (unless_known g (record { id = id; kind = kind; label = label; engine = engine })) e

add_node_fresh :
    (id kind label engine : Text) (g : Builder)
    → lookup id g.nodes ≡ none
    → lookup id (add_node id kind label engine g).nodes
      ≡ some (record { id = id; kind = kind; label = label; engine = engine })
unfolding add_node
add_node_fresh id kind label engine g e =
    let n : Node = record { id = id; kind = kind; label = label; engine = engine } in
    ap (λ o. lookup id (unless_known g n o).nodes) e
    ∙ lookup-insert id id n g.nodes
    ∙ if-true (text_eq id id) (some n) (lookup id g.nodes) (text_eq_refl id)

-- A node that is added a second time changes nothing, whatever its kind, label and engine are then.
pub add_node-add_node :
    (id kind kind' label label' engine engine' : Text) (g : Builder)
    → add_node id kind' label' engine' (add_node id kind label engine g)
      ≡ add_node id kind label engine g
add_node-add_node id kind kind' label label' engine engine' g =
    elim (Option-cases (lookup id g.nodes)) [
      | inr (n, e) ↦
          let same = add_node_known id kind label engine g n e in
          ap (add_node id kind' label' engine') same
          ∙ add_node_known id kind' label' engine' g n e
          ∙ sym same
      | inl e ↦
          add_node_known id kind' label' engine' (add_node id kind label engine g)
            (record { id = id; kind = kind; label = label; engine = engine })
            (add_node_fresh id kind label engine g e)
    ]
