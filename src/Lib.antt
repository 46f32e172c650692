-- ===== src/Lib.antt =====
-- dbexplain explains databases to language models and runs read-only queries on them. This library
-- models the part that keeps a query harmless: the guard that accepts only reading statements, the
-- policies that deny tables, columns and statements, and the redaction of the result.
--
-- executor.ExecQuery runs an SQL query through sqlguard.Validate and policy.CheckSQL, then puts EXPLAIN
-- around it or a LIMIT behind it (sqlguard.AutoLimit); any other query runs through
-- policy.CheckNative. Under the lock of the query's label it asks the connector, and the table that
-- comes back goes through ApplyMask and StripDeniedColumns. The diff of two scans, data
-- source names and the redaction of their passwords, and the graph of tables stand beside this
-- pipeline.
--
-- Paths are from the repository's root, names as in the code, and the model's name of a function is
-- its name in the code in snake case.
--   src/internal/policy/policy.go: Policy/Config (Config, Load, loadCSV, loadMask), Policy/Columns
--     (matchColumn), Policy/Redact (StripDeniedColumns), Policy/Mask (ApplyMask), Policy/Glob
--     (globMatch), Policy/Sql (comments, white space, quoted identifiers, keywords), Policy/Extract
--     (names from syntax trees), Policy/Scan (names by regular expressions), Policy/PromQl (metric
--     and label names), Policy/Check (CheckSQL), Policy/Native (CheckNative and its extractors). What
--     normalizeWhitespace leaves is said by words in Policy/Sql/Blanks
--   src/internal/sqlguard/sqlguard.go: SqlGuard/Words (verbs, statements, words), SqlGuard/Explain
--     (stripExplainPrefix), SqlGuard/Cte (containsCTEWrite), SqlGuard/Into (isSelectInto),
--     SqlGuard/Validate (Validate), SqlGuard/Limit (AutoLimit), with
--     proofs on the LIMIT that hasOuterLimit looks for (SqlGuard/Limit/Found), on what is trimmed
--     (SqlGuard/Limit/Trimmed, SqlGuard/Limit/Outer), on the number (SqlGuard/Limit/Decimal), and on
--     the whole (SqlGuard/Limit/Appended)
--   src/internal/sqlast/types.go: SqlAst
--   src/internal/sqlast/lexer.go: SqlAst/TokenType (TokenType, keywords), SqlAst/Lexer (Next, Tokenize),
--     with proofs on one token (SqlAst/Lexer/Scan) and on all (SqlAst/Lexer/Progress)
--   src/internal/sqlast/parser.go: SqlAst/Result (errors as values), SqlAst/Parsing (the state and the
--     shapes of its loops), SqlAst/Clause (names, ORDER BY, numbers, OVER), SqlAst/Expression (the
--     levels of expressions), SqlAst/SelectClause (parseSingleSelect), SqlAst/Parser (Parse), with
--     proofs on what each part takes (the modules named Consumes, SqlAst/Clause/Window,
--     SqlAst/Expression/Primary and SqlAst/SelectClause/WellFormed), that Parse ends
--     (SqlAst/Parser/Ends) and where it stops (SqlAst/Parser/Shape). The grammar
--     of the expressions is SqlAst/Expression/Grammar; the parser reads it back level by level
--     (SqlAst/Expression/Rounds, Operators and Levels there, SqlAst/Parser/RoundTrip), and joins and
--     ORDER BY in SqlAst/Parser/Clauses and SqlAst/Parser/Ordered
--   src/internal/query/types.go: Query (QueryResult), Query/Lock (QueryLock)
--   src/internal/executor/executor.go: Executor (ExecQuery, wrapExplain, hasExplainPrefix), with
--     proofs on what is sent (Executor/Clearance), what is returned (Executor/Redaction) and the
--     lock (Executor/Lock)
--   src/internal/graph/graph.go, src/internal/ir/types.go: Graph (HasEdge, Degree, Isolated),
--     Graph/Neighbors (Neighbors), Graph/Builder (New, AddNode, AddEdge, Build), with
--     proofs on sequences of calls (Graph/Builder/Calls) and on HasEdge and Degree of a built graph
--     (Graph/Builder/Edges)
--   src/internal/diff/diff.go and types.go, Column, Index, ForeignKey and Table of
--     src/internal/schema/types.go: Diff/Column (compareColumnFields), Diff/Named (the maps by name and
--     the loops over them), Diff/Index (diffIndexes), Diff/ForeignKey
--     (diffFKs), Diff/Table (diffColumns, DiffTables), Diff/Universe (DiffUniverse), Diff/Key
--     (extractTable, keyInstance, keyDB)
--   src/internal/dsn/dsn.go: Dsn (Redacted, labelFrom, escapeUserinfo), Dsn/Userinfo (escaped bytes),
--     Dsn/Redact (what is escaped and redacted of a whole DSN)
--   src/internal/connector/filequery/evaluator.go: FileQuery/Like (likeMatch)
-- Wildcard says what a pattern of wildcards means; Prelude holds shared names, the functions of Go's
-- packages strings, sort and path/filepath that the code calls, and maps as association lists. Examples
-- applies the theorems to concrete inputs and holds the longer tests.
--
-- A text is the list of its bytes. White space and letters are those of ASCII, so the model is the
-- code's behaviour on ASCII text; the code's own loops over bytes are so on every text. Indices into a
-- text become the rest of the text from that index on. Pointers are not nil: the early returns on a
-- nil configuration or result are not modelled. A range over a Go map takes the order of iteration
-- as an argument where the result depends on it.
--
-- The guard and the policies take sqlast.Parse as an argument `parse`, so that their theorems hold
-- whatever it returns; SqlAst/Parser.parse is what the code passes. Token positions count bytes.
--
-- `validate` runs on fuel, one unit for each EXPLAIN that is stripped, and more fuel than bytes is
-- enough wherever the code returns; `exec_query` passes it on; `skip_modifiers` runs on the length of
-- its text, of which each round takes a byte at least. `tokenize` runs on one unit more than the text
-- is long, since each token but the last takes a byte; the loops of the parser on one unit more than
-- there are tokens left, since each round takes a token; `primary` and `single_select`, which call
-- each other, on one unit more than there are tokens, since each takes a token before it calls. All
-- other loops recur on their data.
--
-- A goroutine's step through QueryLock is a critical section under ql.mu, TryLock or the unlocking;
-- the steps of the goroutines interleave in any order.
--
-- A connector is a function from a query to an answer, where the timer of ExecQuery that runs out
-- first is an answer too; what it sends back is a hypothesis where a theorem needs it.
--
-- Not modelled: error texts, warnings and logging, the parsing of URLs by net/url, the columns and
-- metadata of the graph, connectors, rendering, and the command line.
pub mod Prelude
pub mod Wildcard
pub mod Query
pub mod SqlAst
pub mod Policy
pub mod SqlGuard
pub mod FileQuery
pub mod Diff
pub mod Dsn
pub mod Executor
pub mod Graph
mod Examples
