-- ===== src/Rounds/Commands/Due.antt =====
-- persistence/raw_round_repository.py: which command `claim_core_command` takes, by its WHERE and ORDER BY.
use ledgermind_local.Prelude.{
  ℕ, ◌+◌, ◌<◌, ◌≤◌, max, ◌≡◌, refl, true, Option, none, some, ◌⊎◌, inl, inr, arith, leb→le, All,
  All-map, Bool-cases, Option-cases, false, ◌&&◌, ltb, leb, ltb→lt,
}
use ledgermind_local.Prelude.Tables.{Elem, Distinct, none-fetchone}
use ledgermind_local.Rounds.{
  CommandStatus, CoreCommandRecord, Db, pending, delivering, retry_wait, completed, rejected,
  failed,
}
use ledgermind_local.Rounds.Commands.{
  same_command, is_waiting, is_delivering, is_past, is_claimable, claim_before, next_claimable,
  lease, claim_core_command, get_core_command,
}
use ledgermind_local.Rounds.Commands.Claims.{
  claim_before-IsOrder, next_claimable-IsFirst, get-claimed, claim_some, claim_none,
}

-- A lease that has run out.
abbrev pub HasRunOut : ℕ → Option ℕ → Type 0
HasRunOut now none = ⊥
HasRunOut now (some t) = t ≤ now

-- Waiting with its time reached, or delivering under a lease that has run out.
abbrev pub IsDue : ℕ → CoreCommandRecord → Type 0
IsDue now c =
    (((c.status ≡ pending) ⊎ (c.status ≡ retry_wait)) × (c.available_at ≤ now))
    ⊎ ((c.status ≡ delivering) × HasRunOut now c.lease_expires_at)

abbrev pub Precedes : CoreCommandRecord → CoreCommandRecord → Type 0
Precedes a b =
    (a.available_at < b.available_at)
    ⊎ ((a.available_at ≡ b.available_at) × (a.command_id ≤ b.command_id))

-- The columns that a claim writes.
abbrev pub taken_by : (worker expires : ℕ) → CoreCommandRecord → CoreCommandRecord
taken_by worker expires row = record row {
  status = delivering;
  attempts = row.attempts + 1;
  lease_expires_at = some expires;
  claimed_by = some worker;
  completed_at = none;
}

-- Nothing is due and nothing changes, or the first row that is due is taken.
abbrev pub TakesFirst : (worker expires now : ℕ) → Db → Option CoreCommandRecord × Db → Type 0
TakesFirst worker expires now db x =
    ((x.0 ≡ none) × (x.1 ≡ db) × All (λ d. ¬ IsDue now d) db.commands)
    ⊎ ((row : CoreCommandRecord) × Elem row db.commands
        × IsDue now row
        × All (λ d. IsDue now d → Precedes row d) db.commands
        × (x.0 ≡ some (taken_by worker expires row))
        × (get_core_command row.command_id x.1 ≡ some (taken_by worker expires row)))

past : (now : ℕ) (o : Option ℕ) → HasRunOut now o → is_past o now ≡ true
past now none h = absurd h
past now (some t) h = ground arith

run_out : (now : ℕ) (o : Option ℕ) → is_past o now ≡ true → HasRunOut now o
run_out now none h = absurd (cc h)
run_out now (some t) h = leb→le t now h

waiting : (s : CommandStatus) → is_waiting s ≡ true → (s ≡ pending) ⊎ (s ≡ retry_wait)
waiting pending h = inl refl
waiting retry_wait h = inr refl
waiting delivering h = absurd (cc h)
waiting completed h = absurd (cc h)
waiting rejected h = absurd (cc h)
waiting failed h = absurd (cc h)

running : (s : CommandStatus) → is_delivering s ≡ true → s ≡ delivering
running delivering h = refl
running pending h = absurd (cc h)
running retry_wait h = absurd (cc h)
running completed h = absurd (cc h)
running rejected h = absurd (cc h)
running failed h = absurd (cc h)

claimable : (now : ℕ) (c : CoreCommandRecord) → IsDue now c → is_claimable now c ≡ true
unfolding is_claimable
claimable now c (inl (inl s, t)) = rw s (ground arith)
claimable now c (inl (inr s, t)) = rw s (ground arith)
claimable now c (inr (s, t)) = rw s (past now c.lease_expires_at t)

due : (now : ℕ) (c : CoreCommandRecord) → is_claimable now c ≡ true → IsDue now c
unfolding is_claimable
due now c h = elim (Bool-cases (is_waiting c.status && leb c.available_at now)) [
  | inl y ↦
      inl (waiting c.status (ground (arith, y)), leb→le c.available_at now (ground (arith, y)))
  | inr n ↦ inr (
    running c.status (ground (arith, h, n)),
    run_out now c.lease_expires_at (ground (arith, h, n)),
  )
]

precedes : (a b : CoreCommandRecord) → claim_before b a ≡ false → Precedes a b
unfolding claim_before
precedes a b h = elim (Bool-cases (ltb a.available_at b.available_at)) [
  | inl y ↦ inl (ltb→lt a.available_at b.available_at y)
  | inr n ↦ inr (ground (arith, h, n), ground (arith, h, n))
]

no_row :
    (now : ℕ) (db : Db)
    → next_claimable now db ≡ none
    → All (λ d. is_claimable now d ≡ true → ⊥) db.commands
unfolding next_claimable
no_row now db e = none-fetchone claim_before claim_before-IsOrder (is_claimable now) db.commands e

-- Where the rows have distinct keys, a claim returns nothing and changes nothing if no command is due.
-- Otherwise it returns a row of the outbox that is due and that no other due row precedes, by
-- `available_at` and then by id, as delivering, with one more attempt, without a completion time and
-- under the worker's lease, and the outbox then holds it so. A command is due that waits with its
-- `available_at` reached or is delivering with its lease run out.
pub claim-TakesFirst :
    (worker seconds now : ℕ) (db : Db)
    → Distinct same_command db.commands
    → TakesFirst worker (now + max seconds 1) now db (claim_core_command worker seconds now db)
claim-TakesFirst worker seconds now db distinct = elim (Option-cases (next_claimable now db)) [
  | inl e ↦
      rw (claim_none db distinct worker seconds now e)
        (inl (refl, refl, All-map (λ d n i. n (claimable now d i)) db.commands (no_row now db e)))
  | inr (row, e) ↦
      let first = next_claimable-IsFirst now db row e in
      rw (claim_some db distinct worker seconds now row e) (
        inr (
          row,
          first.member,
          due now row first.passes,
          All-map (λ d l i. precedes row d (l (claimable now d i))) db.commands first.least,
          unfold lease in refl,
          unfold lease in get-claimed db distinct worker seconds now row e,
        ))
]
