-- ===== src/SqlAst.antt =====
-- src/internal/sqlast/types.go: the syntax trees that the parser returns. A Go slice or interface
-- value that holds a tree again is a type of this block; `absent` is a nil expression.
pub mod TokenType
pub mod Result
pub mod Lexer
pub mod Parsing
pub mod Clause
pub mod Expression
pub mod SelectClause
pub mod Parser
use dbexplain.Prelude.{ℕ, Bool, List, Option}
use dbexplain.Prelude.Text.{Text}

pub record ColumnRef : Type 0 where
  pub table : Text
  pub col : Text

pub record OrderExpr : Type 0 where
  pub expr : ColumnRef
  pub dir : Text
  pub nulls_dir : Text

pub data FrameBoundType : Type 0 where
  unbounded_preceding offset_preceding current_row : FrameBoundType
  offset_following unbounded_following : FrameBoundType

pub record FrameBound : Type 0 where
  pub type : FrameBoundType
  pub offset : ℕ

pub record WindowFrame : Type 0 where
  pub type : Text
  pub start : FrameBound
  pub end : FrameBound

pub record WindowDef : Type 0 where
  pub partition_by : List ColumnRef
  pub order_by : List OrderExpr
  pub frame : Option WindowFrame

-- `func_call` has the name, the arguments, the target of a CAST, the DISTINCT mark and the OVER
-- clause; `select` has the fields of `SelectStmt` in the order of the source; `join` has the table,
-- its alias, the ON condition and the kind of the join.
mutual
  pub data Expr : Type 0 where
    column_ref : ColumnRef → Expr
    number_lit : Text → Expr
    string_lit : Text → Expr
    binary_expr : Expr → Text → Expr → Expr
    unary_expr : Text → Expr → Expr
    func_call : Text → Exprs → Text → Bool → Option WindowDef → Expr
    between_expr : Expr → Expr → Expr → Expr
    subquery_expr : SelectStmt → Expr

  pub data Exprs : Type 0 where
    nil : Exprs
    cons : Expr → Exprs → Exprs

  pub data MaybeExpr : Type 0 where
    absent : MaybeExpr
    present : Expr → MaybeExpr

  pub data SelectExprs : Type 0 where
    no_columns : SelectExprs
    column : Expr → Text → SelectExprs → SelectExprs

  pub data JoinClauses : Type 0 where
    no_joins : JoinClauses
    join : Text → Text → MaybeExpr → Text → JoinClauses → JoinClauses

  pub data SelectStmt : Type 0 where
    select :
        SelectExprs
        → Text
        → Text
        → JoinClauses
        → MaybeExpr
        → List ColumnRef
        → List OrderExpr
        → ℕ
        → ℕ
        → MaybeExpr
        → List ColumnRef
        → SelectStmt

pub data Stmt : Type 0 where
  select_stmt : SelectStmt → Stmt
  union_stmt : SelectStmt → SelectStmt → Bool → Stmt

-- s.Limit
abbrev pub limit : SelectStmt → ℕ
limit (select _ _ _ _ _ _ _ n _ _ _) = n
