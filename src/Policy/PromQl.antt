-- ===== src/Policy/PromQl.antt =====
-- The PromQL extractors of src/internal/policy/policy.go.
use dbexplain.Prelude.{
  ℕ, Bool, ◌==◌, ◌||◌, List, [], ◌∷◌, ◌++◌, map, none, some, is_empty, if◌then◌else◌, any, String,
  ◌≡◌, refl,
}
use dbexplain.Prelude.Text.{
  Text, codes, to_upper, one_of, trim_space, cut, after_last, upper_byte, fields, text_eq,
}
use dbexplain.Policy.Extract.{add_new}

abbrev has_byte : ℕ → Text → Bool
has_byte b s = any (λ c. c == b) s

-- s[:strings.Index(s, b)], or the whole text.
abbrev before_first : ℕ → Text → Text
before_first b [] = []
before_first b (c ∷ s) = if c == b then [] else c ∷ before_first b s

-- s[:strings.LastIndex(s, b)], or the whole text.
abbrev before_last : ℕ → Text → Text
before_last b [] = []
before_last b (c ∷ s) =
    let rest = before_last b s in if has_byte b s then c ∷ rest else if c == b then [] else c ∷ s

abbrev promql_funcs : List String
promql_funcs =
    "ABS" ∷ "ABSENT" ∷ "AVG" ∷ "CEIL" ∷ "CHANGES" ∷ "CLAMP" ∷ "CLAMP_MAX" ∷ "CLAMP_MIN" ∷ "COUNT"
    ∷ "COUNT_VALUES" ∷ "DAYS_IN_MONTH" ∷ "DAY_OF_MONTH" ∷ "DAY_OF_WEEK" ∷ "DAY_OF_YEAR" ∷ "DELTA"
    ∷ "DERIV" ∷ "DROP_COMMON_LABELS" ∷ "EXP" ∷ "FLOOR" ∷ "HISTOGRAM_QUANTILE" ∷ "HOLT_WINTERS"
    ∷ "HOUR" ∷ "IDELTA" ∷ "INCREASE" ∷ "IRATE" ∷ "LABEL_JOIN" ∷ "LABEL_REPLACE" ∷ "LAST_OVER_TIME"
    ∷ "LN" ∷ "LOG10" ∷ "LOG2" ∷ "MAX" ∷ "MIN" ∷ "MINUTE" ∷ "MONTH" ∷ "PREDICT_LINEAR" ∷ "QUANTILE"
    ∷ "RATE" ∷ "RESETS" ∷ "ROUND" ∷ "SCALAR" ∷ "SGN" ∷ "SIN" ∷ "SORT" ∷ "SORT_DESC" ∷ "SQRT" ∷ "SUM"
    ∷ "TIME" ∷ "TIMESTAMP" ∷ "VECTOR" ∷ "YEAR" ∷ "AVG_OVER_TIME" ∷ "COUNT_OVER_TIME"
    ∷ "MAX_OVER_TIME" ∷ "MIN_OVER_TIME" ∷ "SUM_OVER_TIME" ∷ "STDDEV_OVER_TIME" ∷ "STDVAR_OVER_TIME"
    ∷ "PRESENT_OVER_TIME" ∷ "QUANTILE_OVER_TIME" ∷ []

unfoldable pub is_promql_func : Text → Bool
unfolding upper_byte
is_promql_func name = one_of (to_upper name) (map codes promql_funcs)

abbrev first_field : List Text → Text
first_field [] = []
first_field (w ∷ ws) = w

abbrev last_field : List Text → Text
last_field [] = []
last_field (w ∷ []) = w
last_field (w ∷ v ∷ ws) = last_field (v ∷ ws)

abbrev unless_func : Text → Text
unfolding is_promql_func
unless_func name = if is_promql_func name then [] else name

-- A brace: the identifier in front of it, inside the innermost open parenthesis.
abbrev metric_before_brace : Text → Text
metric_before_brace normalized =
    let pre = trim_space (before_first b'{' normalized) in
    let pre' = if has_byte b'(' pre then trim_space (after_last b'(' pre) else pre in
    unless_func (last_field (fields pre'))

-- Parentheses and no brace: what the last opening one holds, if a function stands in front.
abbrev metric_in_parens : Text → Text
metric_in_parens normalized =
    let inner = before_last b')' (after_last b'(' normalized) in
    let inner' = if has_byte b'[' inner then trim_space (before_first b'[' inner) else inner in
    if is_promql_func (first_field (fields (before_first b'(' normalized)))
    then unless_func (trim_space inner')
    else []

-- `extractPromQLMetricName`; the empty text where no name is found.
unfoldable pub extract_promql_metric_name : Text → Text
unfolding is_promql_func after_last
extract_promql_metric_name query =
    let normalized = trim_space query in
    if is_empty query
    then []
    else if has_byte b'{' normalized
    then metric_before_brace normalized
    else if has_byte b'(' normalized
    then metric_in_parens normalized
    else unless_func (first_field (fields normalized))

-- Where the loop of `extractPromQLLabels` stands: at the blanks before a name, in a name (its bytes
-- so far), or on the way to the next comma.
pub data Part : Type 0 where
  blanks : Part
  name : Text → Part
  value : Part

abbrev is_stop : ℕ → Bool
is_stop c = c == b'=' || c == b'!' || c == b'~'

abbrev add_label : Text → List Text → List Text
unfolding add_new
add_label raw seen =
    let label = trim_space raw in
    if is_empty label || text_eq label (codes "__name__") then seen else add_new label seen

labels_from : Part → Text → List Text → List Text
unfolding add_new
labels_from (name raw) [] seen = add_label raw seen
labels_from _ [] seen = seen
labels_from blanks (c ∷ s) seen =
    let skip = labels_from blanks s seen in
    let stop = labels_from value s seen in
    let go = labels_from (name (c ∷ [])) s seen in
    if c == 32 then skip else if is_stop c then stop else go
labels_from (name raw) (c ∷ s) seen =
    let stop = labels_from value s (add_label raw seen) in
    let go = labels_from (name (raw ++ c ∷ [])) s seen in if is_stop c then stop else go
labels_from value (c ∷ s) seen =
    let next = labels_from blanks s seen in
    let go = labels_from value s seen in if c == b',' then next else go

-- `extractPromQLLabels`: what stands between the first brace and the last closing one.
unfoldable pub extract_promql_labels : Text → List Text
unfolding labels_from cut
extract_promql_labels query = elim (cut query b'{') [
  | none ↦ []
  | some (before, rest) ↦
      if has_byte b'}' rest then labels_from blanks (before_last b'}' rest) [] else []
]

metric_in_aggregation : extract_promql_metric_name (codes "sum by(job) (rate(up[5m]))") ≡ codes "up"
unfolding extract_promql_metric_name
metric_in_aggregation = refl

labels_of_matcher :
    extract_promql_labels (codes "up{job=\"a\", env!=\"b\"}") ≡ codes "job" ∷ codes "env" ∷ []
unfolding extract_promql_labels
labels_of_matcher = refl
