-- ===== src/Rounds/Commands/Finishing.antt =====
-- persistence/raw_round_repository.py: `finish_core_command`, by the holder of a claim and by others.
use ledgermind_local.Prelude.{
  ℕ, ◌≡◌, refl, true, false, some, inl, inr, arith, All-map, Bool-cases, ◌==◌, ==_refl,
}
use ledgermind_local.Prelude.Tables.{
  update_where, rowcount, Distinct, All-key, find-Elem, rowcount-of_Elem, rowcount-key,
  rowcount-zero, find-update_where, find_sound, update_where_unchanged,
}
use ledgermind_local.Rounds.{CoreCommandRecord, Db}
use ledgermind_local.Rounds.Session.{ok}
use ledgermind_local.Rounds.Commands.{
  Report, has_command_id, same_command, is_delivering, is_finish_status, finish, finish_test,
  finish_core_command, get_core_command,
}
use ledgermind_local.Rounds.Commands.Claims.{command_id_collides}

-- The table after the report of `worker`.
abbrev pub finished_db : Db → (k worker now : ℕ) → Report → Db
finished_db db k worker now r = record db {
  commands = update_where (finish_test k worker) (finish now r) db.commands;
}

module _ (db : Db) (k worker now : ℕ) (r : Report) (known : is_finish_status r.status ≡ true) where
  pub finish_core_command_lem :
      finish_core_command k worker now r db
      ≡ ok (rowcount (finish_test k worker) db.commands == 1, finished_db db k worker now r)
  unfolding finish_core_command
  finish_core_command_lem = rw known

  -- Where the rows have distinct keys, a report with a finishing status by the worker that holds the
  -- command's claim is taken, and the command then is as the report says.
  pub finish_held :
      (c : CoreCommandRecord)
      → Distinct same_command db.commands
      → get_core_command k db ≡ some c
      → is_delivering c.status ≡ true
      → c.claimed_by ≡ some worker
      → (finish_core_command k worker now r db ≡ ok (true, finished_db db k worker now r))
        × (get_core_command k (finished_db db k worker now r) ≡ some (finish now r c))
  unfolding get_core_command
  finish_held c distinct found running held =
      let test : finish_test k worker c ≡ true =
        ground (arith, find_sound (has_command_id k) db.commands {a = c} found, ==_refl worker) in
      let one : rowcount (finish_test k worker) db.commands ≡ 1 =
        rowcount-of_Elem same_command (has_command_id k) (command_id_collides k)
          (finish_test k worker) (λ b h. ground arith) c distinct
          (find-Elem (has_command_id k) db.commands found) test in
      (
        ground (arith, finish_core_command_lem, one),
        simp (
          find-update_where (has_command_id k) (finish_test k worker) (finish now r) db.commands
              (λ a. unfold finish in refl),
          found,
          test,
        ),
      )

  -- Where the rows have distinct keys, a report that is refused leaves the database as it was.
  pub finish_lost :
      (db' : Db)
      → Distinct same_command db.commands
      → finish_core_command k worker now r db ≡ ok (false, db')
      → db' ≡ db
  finish_lost db' distinct h =
      let most =
        rowcount-key same_command (has_command_id k) (command_id_collides k) (finish_test k worker)
          (λ b t. ground arith) db.commands distinct in
      let counted : (rowcount (finish_test k worker) db.commands == 1) ≡ false =
        cc (finish_core_command_lem, h) in
      let zero : rowcount (finish_test k worker) db.commands ≡ 0 = ground arith in
      let table = update_where_unchanged (finish_test k worker) (finish now r) db.commands zero in
      cc (finish_core_command_lem, h, table)

  -- No row is the worker's to finish where the command under the id is not.
  pub finish_not_held :
      (c : CoreCommandRecord)
      → Distinct same_command db.commands
      → get_core_command k db ≡ some c
      → finish_test k worker c ≡ false
      → finish_core_command k worker now r db ≡ ok (false, finished_db db k worker now r)
  unfolding get_core_command
  finish_not_held c distinct found other =
      let zero : rowcount (finish_test k worker) db.commands ≡ 0 =
        rowcount-zero (finish_test k worker) db.commands (
          All-map (λ d same. not_mine d same) db.commands
            (All-key same_command (has_command_id k) (command_id_collides k) c distinct
              (find-Elem (has_command_id k) db.commands found)
              (find_sound (has_command_id k) db.commands found))) in
      ground (arith, finish_core_command_lem, zero)
    where
      not_mine :
          (d : CoreCommandRecord)
          → (has_command_id k d ≡ true → d ≡ c)
          → finish_test k worker d ≡ false
      not_mine d same = elim (Bool-cases (has_command_id k d)) [
        | inl mine ↦ rw (same mine) other
        | inr n ↦ rw n
      ]
