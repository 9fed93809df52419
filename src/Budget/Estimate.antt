-- ===== src/Budget/Estimate.antt =====
-- inference/token_budget.py: the closed form of the estimate of a text.
use Prim.Native.Char.{code}
use Prim.Native.String.{String, [], ◌∷◌}
use ledgermind_local.Prelude.{
  ℕ, ◌+◌, ◌≤◌, ◌≡◌, ltb, leb, if◌then◌else◌, arith, inl, inr, Bool-cases,
}
use ledgermind_local.Budget.{tokens_of, estimate_loop, estimate_text}

-- How many characters are ASCII, and how many are not.
pub ascii_count : String → ℕ
ascii_count [] = 0
ascii_count (c ∷ s) = let rest = ascii_count s in if ltb (code c) 128 then rest + 1 else rest

pub other_count : String → ℕ
other_count [] = 0
other_count (c ∷ s) = let rest = other_count s in if ltb (code c) 128 then rest else rest + 1

-- The tokens of a text of at most `m` characters, and `m` for a longer one.
abbrev pub closed_form : (m index a u : ℕ) → String → ℕ
closed_form m i a u s =
    if ltb m (i + ascii_count s + other_count s)
    then m
    else tokens_of (a + ascii_count s) (u + other_count s)

loop-eq : (m i a u : ℕ) (s : String) → i ≤ m → estimate_loop m i a u s ≡ closed_form m i a u s
unfolding estimate_loop ascii_count other_count
loop-eq m i a u [] h = ground arith
loop-eq m i a u (c ∷ s) h = elim (Bool-cases (leb m i)) [
  | inl full ↦ ground (arith, full)
  | inr more ↦ elim (Bool-cases (ltb (code c) 128)) [
    | inl ascii ↦ ground (arith, more, ascii, loop-eq m (i + 1) (a + 1) u s (ground (arith, more)))
    | inr other ↦ ground (arith, more, other, loop-eq m (i + 1) a (u + 1) s (ground (arith, more)))
  ]
]

-- The estimate of a text is `m`, the bound on its characters, if it has more of them than that, and
-- ceil(a / 4) + ceil(u / 2) for its a ASCII and u other characters if not; it is never over `m`.
pub estimate_text-eq :
    (m : ℕ) (s : String)
    → (estimate_text m s ≡ (
        if ltb m (ascii_count s + other_count s)
        then m
        else tokens_of (ascii_count s) (other_count s)))
      × (estimate_text m s ≤ m)
unfolding estimate_text
estimate_text-eq m s =
    let e = loop-eq m 0 0 0 s (omega arith) in (ground (arith, e), ground (arith, e))
