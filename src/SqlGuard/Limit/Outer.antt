-- ===== src/SqlGuard/Limit/Outer.antt =====
-- The trimming of `AutoLimit` of src/internal/sqlguard/sqlguard.go opens and closes no parenthesis.
use dbexplain.Prelude.{ℕ, suc, ◌-◌, ◌≡◌, refl, ◌∙◌, ◌==◌, [], ◌∷◌, if◌then◌else◌, arith}
use dbexplain.Prelude.Text.{Text, trim_space, trim_left, trim_right, trim_cons}
use dbexplain.SqlGuard.Limit.{cut_cons, trim_cutset, trim_semicolon}

-- The depth behind one byte.
abbrev pub depth_step : ℕ → ℕ → ℕ
depth_step d c = if c == b'(' then suc d else if c == b')' then d - 1 else d

-- The depth at the end of a text, as the loop counts it.
abbrev pub depth_after : ℕ → Text → ℕ
depth_after d [] = d
depth_after d (c ∷ s) = depth_after (if c == b'(' then suc d else if c == b')' then d - 1 else d) s

-- White space does not change the depth, nor does a semicolon.
depth_after-trim_left : (d : ℕ) (s : Text) → depth_after d (trim_left s) ≡ depth_after d s
depth_after-trim_left d [] = refl
depth_after-trim_left d (c ∷ s) = ground (arith, depth_after-trim_left d s)

depth_after-trim_cons : (d c : ℕ) (s : Text) → depth_after d (trim_cons c s) ≡ depth_after d (c ∷ s)
depth_after-trim_cons d c [] = ground arith
depth_after-trim_cons d c (e ∷ s) = refl

depth_after-trim_right : (d : ℕ) (s : Text) → depth_after d (trim_right s) ≡ depth_after d s
depth_after-trim_right d [] = refl
depth_after-trim_right d (c ∷ s) =
    depth_after-trim_cons d c (trim_right s) ∙ depth_after-trim_right (depth_step d c) s

pub depth_after-trim_space : (d : ℕ) (s : Text) → depth_after d (trim_space s) ≡ depth_after d s
depth_after-trim_space d s = depth_after-trim_left d (trim_right s) ∙ depth_after-trim_right d s

depth_after-cut_cons : (d c : ℕ) (s : Text) → depth_after d (cut_cons c s) ≡ depth_after d (c ∷ s)
depth_after-cut_cons d c [] = ground arith
depth_after-cut_cons d c (e ∷ s) = refl

pub depth_after-trim_cutset : (d : ℕ) (s : Text) → depth_after d (trim_cutset s) ≡ depth_after d s
depth_after-trim_cutset d [] = refl
depth_after-trim_cutset d (c ∷ s) =
    depth_after-cut_cons d c (trim_cutset s) ∙ depth_after-trim_cutset (depth_step d c) s

pub depth_after-trim_semicolon :
    (d : ℕ) (s : Text) → depth_after d (trim_semicolon s) ≡ depth_after d s
depth_after-trim_semicolon d [] = refl
depth_after-trim_semicolon d (c ∷ []) = ground arith
depth_after-trim_semicolon d (c ∷ e ∷ s) = depth_after-trim_semicolon (depth_step d c) (e ∷ s)
