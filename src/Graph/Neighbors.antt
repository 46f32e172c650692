-- ===== src/Graph/Neighbors.antt =====
-- `Neighbors` of src/internal/graph/graph.go.
use dbexplain.Prelude.{
  Bool, true, false, ◌&&◌, ◌||◌, List, [], ◌∷◌, any, if◌then◌else◌, ◌≡◌, refl, sym, ap, ap₂, ◌∙◌,
  arith,
}
use dbexplain.Prelude.Text.{Text, text_eq, one_of}
use dbexplain.Prelude.Sort.{sort_by, one_of-sort_by, add_key, one_of-add_key}
use dbexplain.Graph.{Edge, text_eq_sym}

-- The map `seen` behind the loop.
unfoldable pub seen_from : Text → List Edge → List Text → List Text
seen_from id [] seen = seen
seen_from id (e ∷ es) seen =
    let out = if text_eq e.source id then add_key e.target seen else seen in
    seen_from id es (if text_eq e.target id then add_key e.source out else out)

-- q.Neighbors(nodeID)
unfoldable pub neighbors : List Edge → Text → List Text
unfolding seen_from sort_by
neighbors edges id = sort_by (λ t. t) (seen_from id edges [])

-- The edge joins the two nodes, in either direction.
abbrev pub joins : Text → Text → Edge → Bool
joins a b e =
    (text_eq e.source a && text_eq e.target b) || (text_eq e.target a && text_eq e.source b)

one_of-if :
    (b : Bool) (k j : Text) (l : List Text)
    → one_of k (if b then add_key j l else l) ≡ ((b && text_eq k j) || one_of k l)
one_of-if true k j l = one_of-add_key k j l
one_of-if false k j l = refl

shuffle :
    (a p q s x x' y y' : Bool)
    → x ≡ x'
    → y ≡ y'
    → (a || ((q && y) || ((p && x) || s))) ≡ ((((p && x') || (q && y')) || a) || s)
shuffle a p q s x x' y y' e f = ground arith

one_of-seen_from :
    (b a : Text) (edges : List Edge) (seen : List Text)
    → one_of b (seen_from a edges seen) ≡ (any (joins a b) edges || one_of b seen)
unfolding seen_from
one_of-seen_from b a [] seen = refl
one_of-seen_from b a (e ∷ es) seen =
    let out = if text_eq e.source a then add_key e.target seen else seen in
    let step = one_of-seen_from b a es (if text_eq e.target a then add_key e.source out else out) in
    let inner = one_of-if (text_eq e.target a) b e.source out in
    let first = one_of-if (text_eq e.source a) b e.target seen in
    step
    ∙ ap (λ k. any (joins a b) es || k)
        (inner ∙ ap (λ k. (text_eq e.target a && text_eq b e.source) || k) first)
    ∙ shuffle (any (joins a b) es) (text_eq e.source a) (text_eq e.target a) (one_of b seen)
        (text_eq b e.target) (text_eq e.target b) (text_eq b e.source) (text_eq e.source b)
        (text_eq_sym b e.target) (text_eq_sym b e.source)

or_false_right : (a : Bool) → (a || false) ≡ a
or_false_right true = refl
or_false_right false = refl

pub one_of-neighbors :
    (b a : Text) (edges : List Edge) → one_of b (neighbors edges a) ≡ any (joins a b) edges
unfolding neighbors
one_of-neighbors b a edges =
    one_of-sort_by b (seen_from a edges [])
    ∙ one_of-seen_from b a edges []
    ∙ or_false_right (any (joins a b) edges)

joins_sym : (a b : Text) (e : Edge) → joins a b e ≡ joins b a e
joins_sym a b e = ground arith

any-ext : (p q : Edge → Bool) (l : List Edge) → ((e : Edge) → p e ≡ q e) → any p l ≡ any q l
any-ext p q [] h = refl
any-ext p q (e ∷ l) h = ap₂ (λ b c. b || c) (h e) (any-ext p q l h)

-- A node is a neighbour of another exactly if an edge joins the two, in either direction, so that being
-- neighbours is symmetric.
pub neighbors-joins :
    (a b : Text) (edges : List Edge)
    → (one_of b (neighbors edges a) ≡ any (joins a b) edges)
      × (one_of b (neighbors edges a) ≡ one_of a (neighbors edges b))
neighbors-joins a b edges = (
  one_of-neighbors b a edges,
  one_of-neighbors b a edges
      ∙ any-ext (joins a b) (joins b a) edges (joins_sym a b)
      ∙ sym (one_of-neighbors a b edges),
)
