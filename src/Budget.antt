-- ===== src/Budget.antt =====
-- inference/token_budget.py: the estimate of a text's tokens. The child Request is about whole requests.
pub mod Request
pub mod Estimate
pub mod Bound
use Prim.Native.Char.{code}
use Prim.Native.String.{String, [], ◌∷◌}
use ledgermind_local.Prelude.{ℕ, ◌+◌, ◌/◌, ltb, leb, if◌then◌else◌}

-- ceil(a / 4) + ceil(u / 2)
abbrev pub tokens_of : (ascii_chars unicode_chars : ℕ) → ℕ
tokens_of ascii_chars unicode_chars = (ascii_chars + 3) / 4 + (unicode_chars + 1) / 2

-- The loop of `estimate_text`.
unfoldable pub estimate_loop : (max_chars index ascii_chars unicode_chars : ℕ) → String → ℕ
estimate_loop m i a u [] = tokens_of a u
estimate_loop m i a u (c ∷ s) =
    let ascii = estimate_loop m (i + 1) (a + 1) u s in
    let unicode = estimate_loop m (i + 1) a (u + 1) s in
    if leb m i then m else if ltb (code c) 128 then ascii else unicode

unfoldable pub estimate_text : ℕ → String → ℕ
unfolding estimate_loop
estimate_text m text = estimate_loop m 0 0 0 text
