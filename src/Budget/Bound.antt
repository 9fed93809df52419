-- ===== src/Budget/Bound.antt =====
-- inference/token_budget.py: the sum that the estimate of a request is, and `ensure_within`.
use ledgermind_local.Prelude.{
  ℕ, ◌+◌, ◌≤◌, ◌<◌, min, ◌≡◌, ◌∙◌, Option, none, some, List, [], ◌∷◌, String, leb, arith, inl, inr,
  Bool-cases,
}
use ledgermind_local.Budget.{estimate_text}
use ledgermind_local.Budget.Request.{
  ModelRequest, messages_loop, estimate_messages, contract_of, nonempty_name, add_part,
  estimate_request, ensure_within, passed,
}

pub total_text : ℕ → List String → ℕ
total_text m [] = 0
total_text m (x ∷ xs) = estimate_text m x + total_text m xs

abbrev pub part_tokens : ℕ → Option String → ℕ
part_tokens m none = 0
part_tokens m (some text) = estimate_text m text

messages_loop-eq :
    (m total : ℕ) (xs : List String)
    → total ≤ m
    → messages_loop m total xs ≡ min m (total + total_text m xs)
unfolding messages_loop total_text
messages_loop-eq m total [] h = omega arith
messages_loop-eq m total (x ∷ xs) h =
    elim (Bool-cases (leb m (min m (total + estimate_text m x)))) [
      | inl full ↦ ground (arith, full)
      | inr more ↦
          ground
            (arith, more, messages_loop-eq m (min m (total + estimate_text m x)) xs (omega arith))
    ]

add_part-eq :
    (m : ℕ) (o : Option String) (x : ℕ) → add_part m o (min m x) ≡ min m (x + part_tokens m o)
add_part-eq m none x = omega arith
add_part-eq m (some text) x = omega arith

messages-eq : (m : ℕ) (xs : List String) → estimate_messages m xs ≡ min m (total_text m xs)
unfolding estimate_messages
messages-eq m xs = messages_loop-eq m 0 xs (omega arith) ∙ omega arith

-- The estimate of a request is the sum of the estimates of its messages, of its contract and of its
-- tool's name, cut at the bound, wherever the loop over the messages stops.
pub estimate_request-eq :
    (m : ℕ) (r : ModelRequest)
    → (estimate_request m r).estimated_tokens
      ≡ min m (
          total_text m r.messages
          + part_tokens m (contract_of r)
          + part_tokens m (nonempty_name r.tool_name))
unfolding estimate_request
estimate_request-eq m r = rw (messages-eq m r.messages) (
    rw (add_part-eq m (contract_of r) (total_text m r.messages)) (
      add_part-eq m (nonempty_name r.tool_name)
        (total_text m r.messages + part_tokens m (contract_of r))))

-- A request that passes does so with its own estimate, which is within a positive allowance.
pub ensure_within_lem :
    (m allowance n : ℕ) (r : ModelRequest)
    → ensure_within m allowance r ≡ passed n
    → (n ≡ (estimate_request m r).estimated_tokens) × (n ≤ allowance) × (0 < allowance)
unfolding ensure_within
ensure_within_lem m allowance n r h = ground (arith, h)
