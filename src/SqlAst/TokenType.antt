-- ===== src/SqlAst/TokenType.antt =====
-- The token types of src/internal/sqlast/lexer.go: `iota` numbers them in the order of the source.
use dbexplain.Prelude.{ℕ, List, [], ◌∷◌}
use dbexplain.Prelude.Text.{Text, codes}

abbrev pub eof : ℕ
eof = 0

abbrev pub error : ℕ
error = 1

abbrev pub select : ℕ
select = 2

abbrev pub from : ℕ
from = 3

abbrev pub where_ : ℕ
where_ = 4

abbrev pub join : ℕ
join = 5

abbrev pub on : ℕ
on = 6

abbrev pub group : ℕ
group = 7

abbrev pub by : ℕ
by = 8

abbrev pub order : ℕ
order = 9

abbrev pub asc : ℕ
asc = 10

abbrev pub desc : ℕ
desc = 11

abbrev pub limit : ℕ
limit = 12

abbrev pub offset : ℕ
offset = 13

abbrev pub as_ : ℕ
as_ = 14

abbrev pub and : ℕ
and = 15

abbrev pub or : ℕ
or = 16

abbrev pub not : ℕ
not = 17

abbrev pub in_ : ℕ
in_ = 18

abbrev pub like : ℕ
like = 19

abbrev pub between : ℕ
between = 20

abbrev pub distinct : ℕ
distinct = 21

abbrev pub cast : ℕ
cast = 22

abbrev pub true : ℕ
true = 23

abbrev pub false : ℕ
false = 24

abbrev pub null : ℕ
null = 25

abbrev pub union : ℕ
union = 26

abbrev pub all : ℕ
all = 27

abbrev pub nulls : ℕ
nulls = 28

abbrev pub first : ℕ
first = 29

abbrev pub last : ℕ
last = 30

abbrev pub is : ℕ
is = 31

abbrev pub having : ℕ
having = 32

abbrev pub left : ℕ
left = 33

abbrev pub right : ℕ
right = 34

abbrev pub outer : ℕ
outer = 35

abbrev pub over : ℕ
over = 36

abbrev pub partition : ℕ
partition = 37

abbrev pub rows : ℕ
rows = 38

abbrev pub range : ℕ
range = 39

abbrev pub unbounded : ℕ
unbounded = 40

abbrev pub preceding : ℕ
preceding = 41

abbrev pub following : ℕ
following = 42

abbrev pub current : ℕ
current = 43

abbrev pub row : ℕ
row = 44

abbrev pub ident : ℕ
ident = 45

abbrev pub number : ℕ
number = 46

abbrev pub string : ℕ
string = 47

abbrev pub eq : ℕ
eq = 48

abbrev pub ne : ℕ
ne = 49

abbrev pub lt : ℕ
lt = 50

abbrev pub gt : ℕ
gt = 51

abbrev pub le : ℕ
le = 52

abbrev pub ge : ℕ
ge = 53

abbrev pub plus : ℕ
plus = 54

abbrev pub minus : ℕ
minus = 55

abbrev pub star : ℕ
star = 56

abbrev pub slash : ℕ
slash = 57

abbrev pub lparen : ℕ
lparen = 58

abbrev pub rparen : ℕ
rparen = 59

abbrev pub comma : ℕ
comma = 60

abbrev pub dot : ℕ
dot = 61

abbrev pub semicolon : ℕ
semicolon = 62

-- keywords
unfoldable pub keywords : List (Text × ℕ)
keywords =
    (codes "SELECT", select)
    ∷ (codes "FROM", from)
    ∷ (codes "WHERE", where_)
    ∷ (codes "JOIN", join)
    ∷ (codes "ON", on)
    ∷ (codes "GROUP", group)
    ∷ (codes "BY", by)
    ∷ (codes "ORDER", order)
    ∷ (codes "ASC", asc)
    ∷ (codes "DESC", desc)
    ∷ (codes "LIMIT", limit)
    ∷ (codes "OFFSET", offset)
    ∷ (codes "AS", as_)
    ∷ (codes "AND", and)
    ∷ (codes "OR", or)
    ∷ (codes "NOT", not)
    ∷ (codes "IN", in_)
    ∷ (codes "LIKE", like)
    ∷ (codes "BETWEEN", between)
    ∷ (codes "DISTINCT", distinct)
    ∷ (codes "CAST", cast)
    ∷ (codes "TRUE", true)
    ∷ (codes "FALSE", false)
    ∷ (codes "NULL", null)
    ∷ (codes "UNION", union)
    ∷ (codes "ALL", all)
    ∷ (codes "NULLS", nulls)
    ∷ (codes "FIRST", first)
    ∷ (codes "LAST", last)
    ∷ (codes "IS", is)
    ∷ (codes "HAVING", having)
    ∷ (codes "LEFT", left)
    ∷ (codes "RIGHT", right)
    ∷ (codes "OUTER", outer)
    ∷ (codes "OVER", over)
    ∷ (codes "PARTITION", partition)
    ∷ (codes "ROWS", rows)
    ∷ (codes "RANGE", range)
    ∷ (codes "UNBOUNDED", unbounded)
    ∷ (codes "PRECEDING", preceding)
    ∷ (codes "FOLLOWING", following)
    ∷ (codes "CURRENT", current)
    ∷ (codes "ROW", row)
    ∷ []
