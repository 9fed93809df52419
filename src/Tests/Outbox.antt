-- ===== src/Tests/Outbox.antt =====
-- Claims and reports on the outbox.
use ledgermind_local.Prelude.{◌≡◌, ◌≢◌, refl, false, some, [], ◌∷◌, List, text_eq, arith}
use ledgermind_local.Prelude.Tables.{
  find, update_where, select, rowcount, order_by, insert_by, fetchone, Distinct,
}
use ledgermind_local.Rounds.{empty_db, Db, CoreCommandRecord}
use ledgermind_local.Rounds.Session.{ok}
use ledgermind_local.Rounds.Commands.{
  same_command, is_claimable, claim_before, next_claimable, claim_core_command, get_core_command,
  lease, finish_core_command, pending_command,
}
use ledgermind_local.Rounds.Commands.Claims.{claim_excludes, claimed_db}
use ledgermind_local.Rounds.Commands.Due.{TakesFirst, claim-TakesFirst}
use ledgermind_local.Rounds.Commands.Outbox.{
  Operation, create, claim, report, apply_all, OutboxIsValid, apply_all-IsValid,
}
use ledgermind_local.Rounds.Commands.History.{command_evolves, Later}
use ledgermind_local.Tests.Samples.{new_command, waiting, outbox_db, retry_report}

pub outbox-Distinct : Distinct same_command outbox_db.commands
unfolding pending_command text_eq
outbox-Distinct = ((refl, tt), (tt, tt))

-- Worker 7 takes command 2 for 60 seconds.
abbrev pub claimed_outbox : Db
claimed_outbox = claimed_db outbox_db 7 60 20 (waiting 2 "a")

abbrev pub held : CoreCommandRecord
held = lease 7 80 (waiting 2 "a")

first_claim : claim_core_command 7 60 20 outbox_db ≡ (some held, claimed_outbox)
unfolding claim_core_command next_claimable is_claimable claim_before select order_by insert_by
    fetchone rowcount update_where find get_core_command lease pending_command
first_claim = refl

second_claim :
    claim_core_command 8 60 79 claimed_outbox
    ≡ (some (lease 8 139 (waiting 3 "b")), claimed_db claimed_outbox 8 60 79 (waiting 3 "b"))
unfolding claim_core_command next_claimable is_claimable claim_before select order_by insert_by
    fetchone rowcount update_where find get_core_command lease pending_command
second_claim = refl

claim_excludes_example : (lease 8 139 (waiting 3 "b")).command_id ≢ held.command_id
claim_excludes_example =
    claim_excludes outbox_db 7 60 20 held claimed_outbox 8 60 79 (lease 8 139 (waiting 3 "b"))
      (claimed_db claimed_outbox 8 60 79 (waiting 3 "b")) outbox-Distinct first_claim (omega arith)
      second_claim

pub first_due : next_claimable 20 outbox_db ≡ some (waiting 2 "a")
unfolding next_claimable is_claimable claim_before select order_by insert_by fetchone
    pending_command
first_due = refl

claim-TakesFirst_example : TakesFirst 7 80 20 outbox_db (claim_core_command 7 60 20 outbox_db)
claim-TakesFirst_example = claim-TakesFirst 7 60 20 outbox_db outbox-Distinct

pub claimed-Distinct : Distinct same_command claimed_outbox.commands
unfolding update_where is_claimable lease pending_command text_eq
claimed-Distinct = ((refl, tt), (tt, tt))

pub held_found : get_core_command 2 claimed_outbox ≡ some held
unfolding get_core_command find update_where is_claimable lease pending_command
held_found = refl

refused_report : finish_core_command 2 8 30 retry_report claimed_outbox ≡ ok (false, claimed_outbox)
unfolding finish_core_command rowcount update_where is_claimable lease pending_command
refused_report = refl

abbrev calls : List Operation
calls =
    create 10 (new_command 3 "b" 1)
    ∷ create 10 (new_command 2 "a" 1)
    ∷ claim 7 60 20
    ∷ report 2 8 30 retry_report
    ∷ report 2 7 30 retry_report
    ∷ create 40 (new_command 4 "a" 2)
    ∷ []

apply_all-IsValid_example : OutboxIsValid (apply_all calls empty_db).commands
apply_all-IsValid_example = apply_all-IsValid calls empty_db (record { distinct = tt; valid = tt })

waiting_found : get_core_command 2 outbox_db ≡ some (waiting 2 "a")
unfolding get_core_command find pending_command
waiting_found = refl

command_evolves_example : Later 2 (apply_all calls outbox_db) (waiting 2 "a")
command_evolves_example = command_evolves calls outbox_db 2 (waiting 2 "a") waiting_found
