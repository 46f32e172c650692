-- ===== src/Graph.antt =====
-- `HasEdge`, `Degree` and `Isolated` of src/internal/graph/graph.go, on the types
-- of src/internal/ir/types.go. Metadata is not modelled: these functions do not read
-- it.
pub mod Neighbors
pub mod Builder
use dbexplain.Prelude.{
  ℕ, suc, ◌<◌, Bool, true, false, not, ◌&&◌, ◌||◌, ◌==◌, List, [], ◌∷◌, keep, if◌then◌else◌, ◌≡◌,
  refl, ap, ap₂, arith,
}
use dbexplain.Prelude.Text.{Text, codes, text_eq, one_of, text_eq_iff}

pub record Node : Type 0 where
  pub id : Text
  pub kind : Text
  pub label : Text
  pub engine : Text

pub record Edge : Type 0 where
  pub source : Text
  pub target : Text
  pub type : Text
  pub confidence : ℕ

-- q.HasEdge(source, target, edgeType)
unfoldable pub has_edge : List Edge → Text → Text → Text → Bool
has_edge [] source target type = false
has_edge (e ∷ es) source target type =
    (text_eq e.source source && (text_eq e.target target && text_eq e.type type))
    || has_edge es source target type

-- q.Degree(nodeID)
unfoldable pub degree : List Edge → Text → ℕ
degree [] id = 0
degree (e ∷ es) id =
    let count = degree es id in
    if text_eq e.source id || text_eq e.target id then suc count else count

-- The keys of the map `connected`, each edge's two ends in turn.
unfoldable pub connected : List Edge → List Text
connected [] = []
connected (e ∷ es) = e.source ∷ e.target ∷ connected es

abbrev pub kind_table : Text
kind_table = codes "table"

-- q.Isolated()
unfoldable pub isolated : List Node → List Edge → List Node
unfolding connected
isolated nodes edges =
    keep (λ n. text_eq n.kind kind_table && not (one_of n.id (connected edges))) nodes

pub text_eq_sym : (s t : Text) → text_eq s t ≡ text_eq t s
text_eq_sym s t = ground (arith, text_eq_iff s t, text_eq_iff t s)

one_of-connected :
    (id : Text) (edges : List Edge) → not (one_of id (connected edges)) ≡ (degree edges id == 0)
unfolding connected degree
one_of-connected id [] = refl
one_of-connected id (e ∷ es) =
    ground (arith, one_of-connected id es, text_eq_sym id e.source, text_eq_sym id e.target)

keep-ext {ℓ} :
    {A : Type ℓ} (p q : A → Bool) (l : List A) → ((a : A) → p a ≡ q a) → keep p l ≡ keep q l
keep-ext p q [] h = refl
keep-ext p q (a ∷ l) h = ap₂ (λ b rest. if b then a ∷ rest else rest) (h a) (keep-ext p q l h)

-- The isolated nodes are, in the order of the graph, exactly the nodes of kind table whose degree is
-- zero.
pub isolated-degree :
    (nodes : List Node) (edges : List Edge)
    → isolated nodes edges ≡ keep (λ n. text_eq n.kind kind_table && (degree edges n.id == 0)) nodes
unfolding isolated
isolated-degree nodes edges =
    keep-ext _ _ nodes (λ n. ap (λ b. text_eq n.kind kind_table && b) (one_of-connected n.id edges))
