-- ===== src/Tasks/Policy/Texts.antt =====
-- The operations on texts that scheduler/core_execution_task_worker.py uses, on code points.
use Prim.Native.Char.{code}
use Prim.Native.String.{String, [], ◌∷◌, ◌++◌}
use ledgermind_local.Prelude.{ℕ, Bool, true, false, ◌&&◌, ◌||◌, not, leb, ◌==◌, if◌then◌else◌}
use ledgermind_local.Prelude.Text.{is_empty}

unfoldable pub starts_with : (prefix text : String) → Bool
starts_with [] s = true
starts_with (c ∷ p) [] = false
starts_with (c ∷ p) (d ∷ s) = (code c == code d) && starts_with p s

-- `marker in text`
unfoldable pub is_within : (marker text : String) → Bool
unfolding starts_with
is_within p [] = starts_with p []
is_within p (d ∷ s) = starts_with p (d ∷ s) || is_within p s

-- `[a-z0-9]`
abbrev pub is_word : ℕ → Bool
is_word c = (leb 97 c && leb c 122) || (leb 48 c && leb c 57)

-- `re.sub(r"[^a-z0-9]+", "_", text)`; the flag tells whether the character before was replaced.
unfoldable pub sub_gaps : Bool → String → String
sub_gaps b [] = []
sub_gaps b (c ∷ s) =
    let w = is_word (code c) in
    let rest = sub_gaps (not w) s in if w then c ∷ rest else (if b then rest else "_" ++ rest)

-- `text.strip("_")` of a text in which no two `_` follow each other.
abbrev pub strip_first : String → String
strip_first [] = []
strip_first (c ∷ s) = if code c == 95 then s else c ∷ s

unfoldable pub strip_last : String → String
strip_last [] = []
strip_last (c ∷ s) =
    let rest = strip_last s in if (code c == 95) && is_empty s then [] else c ∷ rest
