-- ===== src/Graph/Builder/Calls.antt =====
-- Any sequence of calls of `AddNode` and `AddEdge` of src/internal/graph/graph.go on a graph of `New`.
use dbexplain.Prelude.{
  ℕ, Bool, true, false, List, [], ◌∷◌, ◌++◌, Option, none, some, Bool-cases, if◌then◌else◌, ◌≡◌,
  inl, inr, refl, append-nil, append_assoc, sym, ap, ◌∙◌,
}
use dbexplain.Prelude.Text.{Text, text_eq, text_eq→eq}
use dbexplain.Prelude.Map.{lookup, lookup-insert}
use dbexplain.Graph.{Node, Edge}
use dbexplain.Graph.Builder.{Builder, new, add_node, add_edge, build, unless_known}
use dbexplain.Graph.Builder.Edges.{edges-add_node}

-- One call of the builder, with its arguments.
pub data Call : Type 0 where
  node_call : (id kind label engine : Text) → Call
  edge_call : (source target type : Text) (confidence : ℕ) → Call

unfoldable pub call : Call → Builder → Builder
unfolding add_node add_edge
call (node_call id kind label engine) g = add_node id kind label engine g
call (edge_call source target type confidence) g = add_edge source target type confidence g

-- g.AddNode(…).AddEdge(…)…
unfoldable pub run : List Call → Builder → Builder
unfolding call
run [] g = g
run (c ∷ cs) g = run cs (call c g)

-- The node of the first call of AddNode with the id.
abbrev pub first_node : Text → List Call → Option Node
first_node k [] = none
first_node k (edge_call source target type confidence ∷ cs) = first_node k cs
first_node k (node_call id kind label engine ∷ cs) =
    let rest = first_node k cs in
    if text_eq id k
    then some (record { id = id; kind = kind; label = label; engine = engine })
    else rest

-- The edges of the calls of AddEdge, in order.
abbrev pub called_edges : List Call → List Edge
called_edges [] = []
called_edges (node_call id kind label engine ∷ cs) = called_edges cs
called_edges (edge_call source target type confidence ∷ cs) =
    (record { source = source; target = target; type = type; confidence = confidence })
    ∷ called_edges cs

-- What is known, or else what follows.
abbrev pub or_else : Option Node → Option Node → Option Node
or_else (some n) o = some n
or_else none o = o

or_else_assoc : (x y z : Option Node) → or_else (or_else x y) z ≡ or_else x (or_else y z)
or_else_assoc none y z = refl
or_else_assoc (some n) y z = refl

or_else-none : (o : Option Node) → or_else o none ≡ o
or_else-none none = refl
or_else-none (some n) = refl

or_else-if :
    (b : Bool) (n : Node) (o : Option Node)
    → or_else (if b then some n else none) o ≡ (if b then some n else o)
or_else-if true n o = refl
or_else-if false n o = refl

lookup-unless_known :
    (g : Builder) (n : Node) (o : Option Node) (k : Text)
    → lookup n.id g.nodes ≡ o
    → lookup k (unless_known g n o).nodes
      ≡ or_else (lookup k g.nodes) (if text_eq n.id k then some n else none)
unfolding unless_known
lookup-unless_known g n (some m) k h = elim (Bool-cases (text_eq n.id k)) [
  | inl t ↦
      let found : lookup k g.nodes ≡ some m =
        ap (λ j. lookup j g.nodes) (sym (text_eq→eq n.id k t)) ∙ h in
      rw found refl
  | inr t ↦ rw t (sym (or_else-none (lookup k g.nodes)))
]
lookup-unless_known g n none k h = elim (Bool-cases (text_eq n.id k)) [
  | inl t ↦
      let fresh : lookup k g.nodes ≡ none =
        ap (λ j. lookup j g.nodes) (sym (text_eq→eq n.id k t)) ∙ h in
      lookup-insert n.id k n g.nodes ∙ rw (t, fresh) refl
  | inr t ↦ lookup-insert n.id k n g.nodes ∙ rw t (sym (or_else-none (lookup k g.nodes)))
]

lookup-call :
    (c : Call) (g : Builder) (k : Text)
    → lookup k (call c g).nodes ≡ or_else (lookup k g.nodes) (first_node k (c ∷ []))
unfolding call add_node add_edge
lookup-call (node_call id kind label engine) g k =
    lookup-unless_known g (record { id = id; kind = kind; label = label; engine = engine })
      (lookup id g.nodes) k refl
lookup-call (edge_call source target type confidence) g k = sym (or_else-none (lookup k g.nodes))

first_node-cons :
    (k : Text) (c : Call) (cs : List Call)
    → or_else (first_node k (c ∷ [])) (first_node k cs) ≡ first_node k (c ∷ cs)
first_node-cons k (node_call id kind label engine) cs =
    or_else-if (text_eq id k) (record { id = id; kind = kind; label = label; engine = engine })
      (first_node k cs)
first_node-cons k (edge_call source target type confidence) cs = refl

lookup-run :
    (cs : List Call) (g : Builder) (k : Text)
    → lookup k (run cs g).nodes ≡ or_else (lookup k g.nodes) (first_node k cs)
unfolding run
lookup-run [] g k = sym (or_else-none (lookup k g.nodes))
lookup-run (c ∷ cs) g k =
    lookup-run cs (call c g) k
    ∙ ap (λ o. or_else o (first_node k cs)) (lookup-call c g k)
    ∙ or_else_assoc (lookup k g.nodes) (first_node k (c ∷ [])) (first_node k cs)
    ∙ ap (or_else (lookup k g.nodes)) (first_node-cons k c cs)

edges-call : (c : Call) (g : Builder) → (call c g).edges ≡ g.edges ++ called_edges (c ∷ [])
unfolding call add_edge
edges-call (node_call id kind label engine) g =
    edges-add_node id kind label engine g ∙ sym (append-nil g.edges)
edges-call (edge_call source target type confidence) g = refl

called_edges-cons :
    (c : Call) (cs : List Call) → called_edges (c ∷ []) ++ called_edges cs ≡ called_edges (c ∷ cs)
called_edges-cons (node_call id kind label engine) cs = refl
called_edges-cons (edge_call source target type confidence) cs = refl

edges-run : (cs : List Call) (g : Builder) → (run cs g).edges ≡ g.edges ++ called_edges cs
unfolding run
edges-run [] g = sym (append-nil g.edges)
edges-run (c ∷ cs) g =
    edges-run cs (call c g)
    ∙ ap (λ es. es ++ called_edges cs) (edges-call c g)
    ∙ append_assoc g.edges (called_edges (c ∷ [])) (called_edges cs)
    ∙ ap (λ es. g.edges ++ es) (called_edges-cons c cs)

-- After any calls of AddNode and AddEdge on a new graph, in any order: the node of an id is that of
-- the first AddNode with the id, whatever was added for it later, there is none where no AddNode had
-- the id, and the built edges are those of the AddEdge calls, all of them and in their order.
pub run-first_node :
    (cs : List Call)
    → ((k : Text) → lookup k (run cs new).nodes ≡ first_node k cs)
      × ((build (run cs new)).1 ≡ called_edges cs)
unfolding lookup build
run-first_node cs = (λ k. lookup-run cs new k, edges-run cs new)
