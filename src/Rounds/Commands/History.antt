-- ===== src/Rounds/Commands/History.antt =====
-- persistence/raw_round_repository.py: the life of one command in the outbox, over any calls.
use ledgermind_local.Prelude.{
  ℕ, ◌≤◌, ◌≡◌, refl, ◌∙◌, true, some, List, [], ◌∷◌, inl, inr, arith, Bool-cases, if◌then◌else◌,
}
use ledgermind_local.Prelude.Tables.{find, insert_unique, find-update_where, find-append_some}
use ledgermind_local.Rounds.{CoreCommandRecord, Db}
use ledgermind_local.Rounds.Commands.{
  has_command_id, lease, claim_test, finish, finish_test, is_claimable, get_core_command,
  pending_command, Report,
}
use ledgermind_local.Rounds.Commands.Outbox.{
  Operation, apply, apply_all, Change, unchanged, inserted, leased, finished, apply-Change,
  is_terminal,
}

-- From one state of a command to a later one.
pub record Evolves (c c' : CoreCommandRecord) : Type 0 where
  pub command_id : c'.command_id ≡ c.command_id
  pub command_type : c'.command_type ≡ c.command_type
  pub memory_space_id : c'.memory_space_id ≡ c.memory_space_id
  pub idempotency_key : c'.idempotency_key ≡ c.idempotency_key
  pub payload_json : c'.payload_json ≡ c.payload_json
  pub payload_digest : c'.payload_digest ≡ c.payload_digest
  pub created_at : c'.created_at ≡ c.created_at
  pub attempts : c.attempts ≤ c'.attempts
  pub terminal : is_terminal c.status ≡ true → c' ≡ c

Evolves-refl : (c : CoreCommandRecord) → Evolves c c
Evolves-refl c = record {
  command_id = refl;
  command_type = refl;
  memory_space_id = refl;
  idempotency_key = refl;
  payload_json = refl;
  payload_digest = refl;
  created_at = refl;
  attempts = omega arith;
  terminal = λ _. refl;
}

Evolves-trans : (c d e : CoreCommandRecord) → Evolves c d → Evolves d e → Evolves c e
Evolves-trans c d e p q = record {
  command_id = cc (p.command_id, q.command_id);
  command_type = cc (p.command_type, q.command_type);
  memory_space_id = cc (p.memory_space_id, q.memory_space_id);
  idempotency_key = cc (p.idempotency_key, q.idempotency_key);
  payload_json = cc (p.payload_json, q.payload_json);
  payload_digest = cc (p.payload_digest, q.payload_digest);
  created_at = cc (p.created_at, q.created_at);
  attempts = omega (arith, p.attempts, q.attempts);
  terminal = λ t. let s : d ≡ c = p.terminal t in q.terminal (rw s t) ∙ s;
}

Evolves-lease :
    (now k worker expires : ℕ) (c : CoreCommandRecord)
    → Evolves c (if claim_test now k c then lease worker expires c else c)
Evolves-lease now k worker expires c = elim (Bool-cases (claim_test now k c)) [
  | inl t ↦ rw t (unfold lease is_claimable in ground arith)
  | inr t ↦ rw t (Evolves-refl c)
]

Evolves-finish :
    (k worker now : ℕ) (r : Report) (c : CoreCommandRecord)
    → Evolves c (if finish_test k worker c then finish now r c else c)
Evolves-finish k worker now r c = elim (Bool-cases (finish_test k worker c)) [
  | inl t ↦ rw t (unfold finish in ground arith)
  | inr t ↦ rw t (Evolves-refl c)
]

-- The command under the id, and that it evolved from an earlier state.
abbrev pub Later : ℕ → Db → CoreCommandRecord → Type 0
Later k db c = (c' : CoreCommandRecord) × (get_core_command k db ≡ some c') × Evolves c c'

Change-Later :
    {rows rows' : List CoreCommandRecord} (k : ℕ) (c : CoreCommandRecord)
    → Change rows rows'
    → find (has_command_id k) rows ≡ some c
    → (c' : CoreCommandRecord) × (find (has_command_id k) rows' ≡ some c') × Evolves c c'
Change-Later k c (unchanged e) f = (c, rw e f, Evolves-refl c)
Change-Later {rows} k c (inserted now n e) f = (
  c,
  unfold insert_unique in
      ground
        (arith, find-append_some (has_command_id k) rows (pending_command now n ∷ []) {a = c} f),
  Evolves-refl c,
)
Change-Later {rows} k c (leased now j worker expires e) f = (
  if claim_test now j c then lease worker expires c else c,
  rw e (
      rw
        (find-update_where (has_command_id k) (claim_test now j) (lease worker expires) rows
          (λ a. unfold lease in refl))
        (rw f)),
  Evolves-lease now j worker expires c,
)
Change-Later {rows} k c (finished j worker now r known e) f = (
  if finish_test j worker c then finish now r c else c,
  rw e (
      rw
        (find-update_where (has_command_id k) (finish_test j worker) (finish now r) rows
          (λ a. unfold finish in refl))
        (rw f)),
  Evolves-finish j worker now r c,
)

-- Over any calls of the repository, failing or not, a command stays in the outbox under its id with
-- its type, space, key, payload and creation time, its attempts never fall, and once its status is
-- completed, rejected or failed the whole row stays as it is.
pub command_evolves :
    (ops : List Operation) (db : Db) (k : ℕ) (c : CoreCommandRecord)
    → get_core_command k db ≡ some c
    → Later k (apply_all ops db) c
unfolding apply_all get_core_command
command_evolves [] db k c f = (c, f, Evolves-refl c)
command_evolves (op ∷ ops) db k c f =
    let (d, g, p) = Change-Later k c (apply-Change op db) f in
    let (e, h, q) = command_evolves ops (apply op db) k d g in (e, h, Evolves-trans c d e p q)
