-- ===== src/Examples/FileQuery.antt =====
-- The matcher of src/internal/connector/filequery/evaluator.go on a text with an escape.
use dbexplain.Prelude.{◌≡◌, ◌↔◌, true}
use dbexplain.Prelude.Text.{codes, to_lower}
use dbexplain.Wildcard.{MatchesRead}
use dbexplain.FileQuery.Like.{like_match, like_tokens, like_match_iff}

like_match_iff_example :
    (like_match (codes "50% OFF") (codes "50\\% o_f%") ≡ true)
    ↔ MatchesRead (like_tokens (to_lower (codes "50\\% o_f%"))) (to_lower (codes "50% OFF"))
like_match_iff_example = like_match_iff (codes "50% OFF") (codes "50\\% o_f%")
