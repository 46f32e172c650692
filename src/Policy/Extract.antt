-- ===== src/Policy/Extract.antt =====
-- `extractTablesFromAST`, `extractColRefsFromAST` and `collectColRefs` of
-- src/internal/policy/policy.go. A Go map `seen` beside the slice it guards is the slice itself.
use dbexplain.Prelude.{List, [], ◌∷◌, ◌++◌, none, some, is_empty, if◌then◌else◌}
use dbexplain.Prelude.Text.{Text, codes, one_of, cut}
use dbexplain.SqlAst.{
  ColumnRef, OrderExpr, Expr, Exprs, MaybeExpr, SelectExprs, JoinClauses, SelectStmt, Stmt,
  column_ref, number_lit, string_lit, binary_expr, unary_expr, func_call, between_expr,
  subquery_expr, nil, cons, absent, present, no_columns, column, no_joins, join, select,
  select_stmt, union_stmt,
}

-- if !seen[name] { seen[name] = true; tables = append(tables, name) }
unfoldable pub add_new : Text → List Text → List Text
add_new name seen = if one_of name seen then seen else seen ++ name ∷ []

-- The closure `add`: the name, and the two parts of a name with a dot.
unfoldable pub add_table : Text → List Text → List Text
unfolding add_new cut
add_table name seen =
    let seen' = if is_empty name then seen else add_new name seen in
    elim (cut name b'.') [
      | none ↦ seen'
      | some (schema, table) ↦ add_new schema (add_new table seen')
    ]

unfoldable pub add_joins : JoinClauses → List Text → List Text
unfolding add_table
add_joins no_joins seen = seen
add_joins (join table alias on kind js) seen = add_joins js (add_table table seen)

unfoldable pub select_tables : SelectStmt → List Text
unfolding add_table add_joins
select_tables (select cols from alias joins cond group order limit offset having on) =
    add_joins joins (add_table from [])

unfoldable pub add_tables : List Text → List Text → List Text
unfolding add_table
add_tables [] seen = seen
add_tables (t ∷ ts) seen = add_tables ts (add_table t seen)

-- Of a union, the tables of the left side go in front, and `seen` knows only those of the right.
unfoldable pub extract_tables_from_ast : Stmt → List Text
unfolding select_tables add_tables
extract_tables_from_ast (select_stmt s) = select_tables s
extract_tables_from_ast (union_stmt left right all) =
    select_tables left ++ add_tables (select_tables right) []

-- The closure `add` for columns.
unfoldable pub add_column : Text → Text → List Text → List Text
unfolding add_new
add_column table col seen = add_new (if is_empty table then col else table ++ codes "." ++ col) seen

unfoldable pub add_refs : List Text → List Text → List Text
unfolding add_column
add_refs [] seen = seen
add_refs (r ∷ rs) seen = add_refs rs (add_column [] r seen)

unfoldable pub add_group : List ColumnRef → List Text → List Text
unfolding add_column
add_group [] seen = seen
add_group (c ∷ cs) seen = add_group cs (add_column c.table c.col seen)

unfoldable pub add_order : List OrderExpr → List Text → List Text
unfolding add_column
add_order [] seen = seen
add_order (o ∷ os) seen = add_order os (add_column o.expr.table o.expr.col seen)

unfoldable mutual
  unfolding add_column add_refs add_group add_order

  pub collect_col_refs : Expr → List Text → List Text
  collect_col_refs (column_ref c) seen = add_column c.table c.col seen
  collect_col_refs (number_lit v) seen = seen
  collect_col_refs (string_lit v) seen = seen
  collect_col_refs (binary_expr l op r) seen = collect_col_refs r (collect_col_refs l seen)
  collect_col_refs (unary_expr op r) seen = collect_col_refs r seen
  collect_col_refs (func_call name args cast distinct over) seen = collect_args args seen
  collect_col_refs (between_expr e low high) seen =
      collect_col_refs high (collect_col_refs low (collect_col_refs e seen))
  collect_col_refs (subquery_expr s) seen = add_refs (select_col_refs s) seen

  pub collect_args : Exprs → List Text → List Text
  collect_args nil seen = seen
  collect_args (cons e es) seen = collect_args es (collect_col_refs e seen)

  pub walk_expr : MaybeExpr → List Text → List Text
  walk_expr absent seen = seen
  walk_expr (present e) seen = collect_col_refs e seen

  pub walk_columns : SelectExprs → List Text → List Text
  walk_columns no_columns seen = seen
  walk_columns (column e alias cs) seen = walk_columns cs (collect_col_refs e seen)

  pub walk_joins : JoinClauses → List Text → List Text
  walk_joins no_joins seen = seen
  walk_joins (join table alias on kind js) seen = walk_joins js (walk_expr on seen)

  pub select_col_refs : SelectStmt → List Text
  select_col_refs (select cols from alias joins cond group order limit offset having on) =
      walk_expr having (
        add_order order
          (add_group group (walk_joins joins (walk_expr cond (walk_columns cols [])))))

unfoldable pub add_all_new : List Text → List Text → List Text
unfolding add_new
add_all_new [] seen = seen
add_all_new (r ∷ rs) seen = add_all_new rs (add_new r seen)

unfoldable pub extract_col_refs_from_ast : Stmt → List Text
unfolding select_col_refs add_all_new
extract_col_refs_from_ast (select_stmt s) = select_col_refs s
extract_col_refs_from_ast (union_stmt left right all) =
    select_col_refs left ++ add_all_new (select_col_refs right) []
