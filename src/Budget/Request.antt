-- ===== src/Budget/Request.antt =====
-- inference/token_budget.py: the estimate of a request's input tokens, and the refusal of a request over
-- its profile's allowance. A contract is given as the text that `json.dumps` makes of it.
use ledgermind_local.Prelude.{
  ℕ, ◌+◌, min, Bool, Option, none, some, List, [], ◌∷◌, String, ltb, leb, if◌then◌else◌, text_eq,
}
use ledgermind_local.Prelude.Text.{is_empty}
use ledgermind_local.Budget.{estimate_text}

pub record ModelRequest : Type 0 where
  pub messages : List String  -- the contents
  pub output_contract : Option String
  pub response_format : Option String
  pub tool_name : Option String

pub record TokenBudgetEstimate : Type 0 where
  pub estimated_tokens : ℕ
  pub bounded : Bool

pub data BudgetError : Type 0 where
  value_error : BudgetError
  input_budget_exceeded : (estimated max_input : ℕ) → BudgetError

pub data Checked (A : Type 0) : Type 0 where
  passed : A → Checked A
  refused : BudgetError → Checked A

-- `__init__`: the estimator is its `max_chars`.
unfoldable pub new_estimator : ℕ → Checked ℕ
new_estimator max_chars = if ltb max_chars 1 then refused value_error else passed max_chars

-- The loop of `estimate_messages`, which stops at the bound.
unfoldable pub messages_loop : (max_chars total : ℕ) → List String → ℕ
messages_loop m total [] = total
messages_loop m total (x ∷ xs) =
    let next = min m (total + estimate_text m x) in
    let rest = messages_loop m next xs in if leb m next then m else rest

unfoldable pub estimate_messages : ℕ → List String → ℕ
unfolding messages_loop
estimate_messages m contents = messages_loop m 0 contents

-- An empty mapping is falsy: its text is "{}".
abbrev truthy : Option String → Option String
truthy none = none
truthy (some text) = if text_eq text "{}" then none else some text

abbrev pub contract_of : ModelRequest → Option String
contract_of r = elim (truthy r.output_contract) [ none ↦ r.response_format | some text ↦ some text ]

abbrev pub nonempty_name : Option String → Option String
nonempty_name none = none
nonempty_name (some name) = if is_empty name then none else some name

-- A further part of the request, where there is one.
abbrev pub add_part : ℕ → Option String → ℕ → ℕ
add_part m none total = total
add_part m (some text) total = min m (total + estimate_text m text)

unfoldable pub estimate_request : ℕ → ModelRequest → TokenBudgetEstimate
unfolding estimate_messages
estimate_request m r =
    let total =
      add_part m (nonempty_name r.tool_name)
        (add_part m (contract_of r) (estimate_messages m r.messages)) in
    record { estimated_tokens = total; bounded = ltb total m }

unfoldable pub ensure_within : (max_chars max_input_tokens : ℕ) → ModelRequest → Checked ℕ
unfolding estimate_request
ensure_within m max_input r =
    let estimate = (estimate_request m r).estimated_tokens in
    if ltb max_input 1
    then refused value_error
    else if ltb max_input estimate
    then refused (input_budget_exceeded estimate max_input)
    else passed estimate
