-- ===== src/Rounds/Commands/Claims.antt =====
-- persistence/raw_round_repository.py: `claim_core_command`, the command that it takes and its lease.
use ledgermind_local.Prelude.{
  ℕ, ◌+◌, ◌<◌, max, ◌≡◌, ◌≢◌, refl, ap, true, false, none, some, inl, inr, arith, All, Option-cases,
  ==_refl,
}
use ledgermind_local.Prelude.Tables.{
  find, update_where, rowcount, Distinct, IsOrder, IsFirst, IsFirst-fetchone, Elem-All, All-key,
  find-of_Elem, rowcount-of_Elem, All-update_where, find-update_where, Distinct-update_where,
}
use ledgermind_local.Rounds.{CoreCommandRecord, Db}
use ledgermind_local.Rounds.Commands.{
  has_command_id, same_command, is_claimable, claim_before, next_claimable, lease, claim_test,
  claim_core_command, get_core_command,
}

pub claim_before-IsOrder : IsOrder claim_before
unfolding claim_before
claim_before-IsOrder = record {
  asym = λ a b h. ground arith;
  not_before_trans = λ a b c h k. ground arith;
}

-- The rows under one command id collide.
pub command_id_collides :
    (k : ℕ) (a b : CoreCommandRecord)
    → has_command_id k a ≡ true
    → has_command_id k b ≡ true
    → same_command a b ≡ true
command_id_collides k a b h j = ground arith

-- The command that a claim finds is in the outbox and due, and no command that is due comes before it
-- in the order of `available_at` and then of the id.
pub next_claimable-IsFirst :
    (now : ℕ) (db : Db) (c : CoreCommandRecord)
    → next_claimable now db ≡ some c
    → IsFirst claim_before (is_claimable now) db.commands c
unfolding next_claimable
next_claimable-IsFirst now db c =
    IsFirst-fetchone claim_before claim_before-IsOrder (is_claimable now) db.commands c

-- The table after the claim of `row`.
abbrev pub claimed_db : Db → (worker seconds now : ℕ) → CoreCommandRecord → Db
claimed_db db worker seconds now row = record db {
  commands =
      update_where (claim_test now row.command_id) (lease worker (now + max seconds 1)) db.commands;
}

module _ (db : Db) (distinct : Distinct same_command db.commands) (worker seconds now : ℕ) where
  pub get-claimed :
      (row : CoreCommandRecord)
      → next_claimable now db ≡ some row
      → get_core_command row.command_id (claimed_db db worker seconds now row)
        ≡ some (lease worker (now + max seconds 1) row)
  unfolding get_core_command
  get-claimed row e =
      let first = next_claimable-IsFirst now db row e in
      let found : find (has_command_id row.command_id) db.commands ≡ some row =
        find-of_Elem same_command (has_command_id row.command_id)
          (command_id_collides row.command_id) row distinct first.member (==_refl row.command_id) in
      simp
        (
          find-update_where (has_command_id row.command_id) (claim_test now row.command_id)
              (lease worker (now + max seconds 1)) db.commands (λ a. unfold lease in refl),
          found,
        )
        (ground (arith, first.passes))

  -- The claim in full, where a command is due.
  pub claim_some :
      (row : CoreCommandRecord)
      → next_claimable now db ≡ some row
      → claim_core_command worker seconds now db
        ≡ (some (lease worker (now + max seconds 1) row), (claimed_db db worker seconds now row))
  unfolding claim_core_command
  claim_some row e =
      let first = next_claimable-IsFirst now db row e in
      let one : rowcount (claim_test now row.command_id) db.commands ≡ 1 =
        rowcount-of_Elem same_command (has_command_id row.command_id)
          (command_id_collides row.command_id) (claim_test now row.command_id) (λ b h. ground arith)
          row distinct first.member (ground (arith, first.passes)) in
      ground (arith, e, one, get-claimed row e)

  pub claim_none :
      next_claimable now db ≡ none → claim_core_command worker seconds now db ≡ (none, db)
  unfolding claim_core_command
  claim_none e = ground (arith, e)

  -- A claim that returns a command has leased the first command that was due.
  pub claimed :
      (c : CoreCommandRecord) (db' : Db)
      → claim_core_command worker seconds now db ≡ (some c, db')
      → (row : CoreCommandRecord) × (next_claimable now db ≡ some row)
        × (c ≡ lease worker (now + max seconds 1) row)
        × (db' ≡ (claimed_db db worker seconds now row))
  claimed c db' h = elim (Option-cases (next_claimable now db)) [
    | inl e ↦ absurd (cc (claim_none e, h))
    | inr (row, e) ↦ (row, e, cc (claim_some row e, h), cc (claim_some row e, h))
  ]

  -- No command under the id of the claimed one is due before its lease runs out.
  leased_not_due :
      (row : CoreCommandRecord) (later : ℕ)
      → next_claimable now db ≡ some row
      → later < now + max seconds 1
      → All
          (λ d. has_command_id row.command_id d ≡ true → is_claimable later d ≡ false)
          (claimed_db db worker seconds now row).commands
  leased_not_due row later e soon =
      let first = next_claimable-IsFirst now db row e in
      All-update_where (λ d. has_command_id row.command_id d ≡ true → d ≡ row)
        (λ d. has_command_id row.command_id d ≡ true → is_claimable later d ≡ false)
        (claim_test now row.command_id) (lease worker (now + max seconds 1)) db.commands
        (λ d t same k. unfold lease is_claimable in ground arith)
        (λ d t same k.
          absurd (cc (ap (claim_test now row.command_id) (same k), t, test_row row first.passes)))
        (All-key same_command (has_command_id row.command_id) (command_id_collides row.command_id)
          row distinct first.member (==_refl row.command_id))
    where
      test_row :
          (r : CoreCommandRecord) → is_claimable now r ≡ true → claim_test now r.command_id r ≡ true
      test_row r k = ground arith

  pub Distinct-claimed :
      (row : CoreCommandRecord)
      → Distinct same_command (claimed_db db worker seconds now row).commands
  Distinct-claimed row =
      Distinct-update_where same_command (claim_test now row.command_id)
        (lease worker (now + max seconds 1)) (λ a b. unfold lease in (refl, refl)) db.commands
        distinct

  -- What is due later, before the lease runs out, is another command.
  next_is_other :
      (row : CoreCommandRecord) (later : ℕ)
      → next_claimable now db ≡ some row
      → later < now + max seconds 1
      → (next : CoreCommandRecord)
      → next_claimable later (claimed_db db worker seconds now row) ≡ some next
      → next.command_id ≢ row.command_id
  next_is_other row later e soon next n same =
      let first = next_claimable-IsFirst later (claimed_db db worker seconds now row) next n in
      let not_due =
        Elem-All (λ d. has_command_id row.command_id d ≡ true → is_claimable later d ≡ false) next
          first.member (leased_not_due row later e soon) (ground arith) in
      cc (first.passes, not_due)

-- Where the rows have distinct keys: while the lease of a command that was claimed runs, the next
-- claim, by any worker, does not return that command.
pub claim_excludes :
    (db : Db) (worker seconds now : ℕ) (c : CoreCommandRecord) (db' : Db) (other seconds' later : ℕ)
    (d : CoreCommandRecord) (db'' : Db)
    → Distinct same_command db.commands
    → claim_core_command worker seconds now db ≡ (some c, db')
    → later < now + max seconds 1
    → claim_core_command other seconds' later db' ≡ (some d, db'')
    → d.command_id ≢ c.command_id
claim_excludes db worker seconds now c db' other seconds' later d db'' distinct h soon k same =
    let (row, e, leased, table) = claimed db distinct worker seconds now c db' h in
    let distinct' : Distinct same_command db'.commands =
      rw table (Distinct-claimed db distinct worker seconds now row) in
    let (next, n, taken, _) = claimed db' distinct' other seconds' later d db'' k in
    next_is_other db distinct worker seconds now row later e soon next (rw table at n)
      (unfold lease in cc (taken, leased, same))
