-- ===== src/SqlAst/Clause/Window.antt =====
-- What the OVER clause of a window function of src/internal/sqlast/parser.go takes.
use dbexplain.Prelude.{ℕ, ◌==◌, ◌||◌, [], none, All, drop, if◌then◌else◌, arith}
use dbexplain.Prelude.Text.{Text, codes}
use dbexplain.SqlAst.{
  FrameBound, current_row, offset_preceding, offset_following, unbounded_preceding,
  unbounded_following,
}
use dbexplain.SqlAst.TokenType
use dbexplain.SqlAst.Result.{ok, Ensures-bind, Ensures-if, Ensures-weaken}
use dbexplain.SqlAst.Parsing.{pure, ◌>>◌, peek, expect, accept, optional}
use dbexplain.SqlAst.Parsing.Consumes.{
  Any, Gives, pure-Gives, Gives-weaken, if-Gives, drop-Gives, optional-Gives, expect-Gives,
  accept-Gives,
}
use dbexplain.SqlAst.Clause.{
  some_frame, bound, parse_number, by_columns, by_order, bound_side, current_bound, offset_bound,
  parse_frame_bound, between_bounds, single_bound, frame_bounds, parse_frame_clause,
  parse_over_clause,
}
use dbexplain.SqlAst.Clause.Consumes.{
  IsDirection, parse_number-Gives, by_columns-Gives, by_order-Gives,
}

side-Gives : (n : ℕ) (type : ℕ) (b : FrameBound) → Gives Any 1 n (expect type >> pure b)
unfolding expect
side-Gives n type b ts l =
    Ensures-bind _ _ (expect type ts) _ (expect-Gives n type ts l)
      λ (_, r0) (s0, _). (omega arith, tt)

bound_side-Gives : (n : ℕ) (a b : FrameBound) → Gives Any 0 n (bound_side a b)
unfolding bound_side
bound_side-Gives n a b ts l =
    Ensures-bind _ _ (accept TokenType.preceding ts) _ (accept-Gives n TokenType.preceding ts l)
      λ (preceding, r0) (s0, _).
        Ensures-weaken _ _
          ((if preceding then pure a else (expect TokenType.following >> pure b)) r0)
          (if-Gives Any 0 n preceding (pure a) (expect TokenType.following >> pure b)
            (pure-Gives Any n a tt)
            (Gives-weaken Any Any 1 0 n (expect TokenType.following >> pure b) (omega arith)
              (λ _ _. tt) (side-Gives n TokenType.following b))
            r0 (omega arith))
          λ r (x, y). (omega arith, tt)

current_bound-Gives : (n : ℕ) → Gives Any 0 n current_bound
unfolding current_bound
current_bound-Gives n ts l =
    let here = bound current_row 0 in
    Ensures-bind _ _ (accept TokenType.row ts) _ (accept-Gives n TokenType.row ts l)
      λ (row, r0) (s0, _).
        Ensures-weaken _ _ ((if row then pure here else (expect TokenType.rows >> pure here)) r0)
          (if-Gives Any 0 n row (pure here) (expect TokenType.rows >> pure here)
            (pure-Gives Any n here tt)
            (Gives-weaken Any Any 1 0 n (expect TokenType.rows >> pure here) (omega arith)
              (λ _ _. tt) (side-Gives n TokenType.rows here))
            r0 (omega arith))
          λ r (x, y). (omega arith, tt)

offset_bound-Gives : (n : ℕ) → Gives Any 1 n offset_bound
unfolding offset_bound
offset_bound-Gives n ts l =
    Ensures-bind _ _ (parse_number ts) _ (parse_number-Gives n ts l) λ (m, r0) (s0, _).
      Ensures-weaken _ _ (bound_side (bound offset_preceding m) (bound offset_following m) r0)
        (bound_side-Gives n (bound offset_preceding m) (bound offset_following m) r0 (omega arith))
        λ r (x, y). (omega arith, tt)

parse_frame_bound-Gives : (n : ℕ) → Gives Any 0 n parse_frame_bound
unfolding parse_frame_bound
parse_frame_bound-Gives n ts l =
    Ensures-if _ (peek ts == TokenType.unbounded) _ _
      (λ _.
        drop-Gives Any n (bound_side (bound unbounded_preceding 0) (bound unbounded_following 0)) ts
          (bound_side-Gives n (bound unbounded_preceding 0) (bound unbounded_following 0)) l)
      (λ _.
        Ensures-if _ (peek ts == TokenType.current) (current_bound (drop 1 ts)) (offset_bound ts)
          (λ _. drop-Gives Any n current_bound ts (current_bound-Gives n) l)
          (λ _.
            Gives-weaken Any Any 1 0 n offset_bound (omega arith) (λ _ _. tt) (offset_bound-Gives n)
              ts l))

between_bounds-Gives : (n : ℕ) (type : Text) → Gives Any 0 n (between_bounds type)
unfolding between_bounds
between_bounds-Gives n type ts l =
    Ensures-bind _ _ (parse_frame_bound ts) _ (parse_frame_bound-Gives n ts l)
      λ (start, r0) (s0, _).
        Ensures-bind _ _ (expect TokenType.and r0) _ (expect-Gives n TokenType.and r0 (omega arith))
          λ (_, r1) (s1, _).
            Ensures-bind _ _ (parse_frame_bound r1) _ (parse_frame_bound-Gives n r1 (omega arith))
              λ (end, r2) (s2, _). (omega arith, tt)

single_bound-Gives : (n : ℕ) (type : Text) → Gives Any 0 n (single_bound type)
unfolding single_bound
single_bound-Gives n type ts l =
    Ensures-bind _ _ (parse_frame_bound ts) _ (parse_frame_bound-Gives n ts l)
      λ (start, r0) (s0, _). (omega arith, tt)

frame_bounds-Gives : (n : ℕ) (type : Text) → Gives Any 0 n (frame_bounds type)
unfolding frame_bounds
frame_bounds-Gives n type ts l =
    Ensures-if _ (peek ts == TokenType.between) (between_bounds type (drop 1 ts))
      (single_bound type ts)
      (λ _. drop-Gives Any n (between_bounds type) ts (between_bounds-Gives n type) l)
      (λ _. single_bound-Gives n type ts l)

some_frame-Gives : (n : ℕ) (type : Text) → Gives Any 0 n (some_frame type)
unfolding some_frame
some_frame-Gives n type ts l =
    Ensures-bind _ _ (frame_bounds type ts) _ (frame_bounds-Gives n type ts l)
      λ (f, r0) (s0, _). (omega arith, tt)

parse_frame_clause-Gives : (n : ℕ) → Gives Any 0 n parse_frame_clause
unfolding parse_frame_clause
parse_frame_clause-Gives n ts l =
    Ensures-if _ (peek ts == TokenType.rows || peek ts == TokenType.row) _ _
      (λ _. drop-Gives Any n (some_frame (codes "ROWS")) ts (some_frame-Gives n (codes "ROWS")) l)
      (λ _.
        Ensures-if _ (peek ts == TokenType.range) _ (ok (none, ts))
          (λ _.
            drop-Gives Any n (some_frame (codes "RANGE")) ts (some_frame-Gives n (codes "RANGE")) l)
          (λ _. (omega arith, tt)))

pub parse_over_clause-Gives : (n : ℕ) → Gives Any 2 n parse_over_clause
unfolding parse_over_clause
parse_over_clause-Gives n ts l =
    Ensures-bind _ _ (expect TokenType.lparen ts) _ (expect-Gives n TokenType.lparen ts l)
      λ (_, r0) (s0, _).
        Ensures-bind _ _ (optional TokenType.partition by_columns [] r0) _
          (optional-Gives Any n TokenType.partition by_columns []
            (Gives-weaken Any Any 2 0 n by_columns (omega arith) (λ _ _. tt) (by_columns-Gives n))
            tt r0 (omega arith))
          λ (partition, r1) (s1, _).
            Ensures-bind _ _ (optional TokenType.order by_order [] r1) _
              (optional-Gives Any n TokenType.order by_order []
                (Gives-weaken (All IsDirection) Any 2 0 n by_order (omega arith) (λ _ _. tt)
                  (by_order-Gives n))
                tt r1 (omega arith))
              λ (order, r2) (s2, _).
                Ensures-bind _ _ (parse_frame_clause r2) _
                  (parse_frame_clause-Gives n r2 (omega arith))
                  λ (frame, r3) (s3, _).
                    Ensures-bind _ _ (expect TokenType.rparen r3) _
                      (expect-Gives n TokenType.rparen r3 (omega arith))
                      λ (_, r4) (s4, _). (omega arith, tt)
