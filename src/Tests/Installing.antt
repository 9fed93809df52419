-- ===== src/Tests/Installing.antt =====
-- A small installation and its restoration.
use ledgermind_local.Releases.{
  link, other, nothing, State, commit_step, switch_step, fail_step, run_block, run_body, take_step,
  commit, place_release, switch_current, atomic_symlink, call, exit, rollback, cleanup,
}
use ledgermind_local.Releases.Undone.{Undone, run_block-Undone}
use ledgermind_local.Prelude.{
  true, false, ◌≡◌, refl, none, some, [], ◌∷◌, List, text_eq, if◌then◌else◌,
}
use ledgermind_local.Prelude.Tables.{any}
use ledgermind_local.Backups.{File, Files, backup_file, restore_backups}
use ledgermind_local.Backups.Restored.{
  Action, back_up, change, act, act_all, IsGuarded, restore_backups-start,
}

abbrev old_config : File
old_config = record { content = 1 ∷ []; mode = 384 }

abbrev machine : Files
machine p = if text_eq p "config" then some old_config else none

abbrev steps : List Action
steps =
    back_up "config"
    ∷ back_up "unit"
    ∷ change "config" (some (record { content = 2 ∷ []; mode = 420 }))
    ∷ change "unit" (some (record { content = 3 ∷ []; mode = 420 }))
    ∷ []

steps-IsGuarded : IsGuarded steps (record { files = machine; backups = [] })
unfolding act backup_file any text_eq
steps-IsGuarded = (refl, (refl, tt))

restore_backups-start_example :
    restore_backups
      (act_all steps (record { files = machine; backups = [] })).backups
      (act_all steps (record { files = machine; backups = [] })).files
      "config"
    ≡ machine "config"
restore_backups-start_example = restore_backups-start machine steps "config" steps-IsGuarded

-- A release that was switched to, and a later step that fails.
abbrev host : State
host = record {
  fates = [];
  current_link = link 1;
  is_released = false;
  is_staged = true;
  snapshot = none;
  committed = false;
}

undone : (run_block (commit_step 2 false ∷ switch_step ∷ fail_step ∷ []) host).1.1 ≡ record host {
  is_staged = false;
  snapshot = some (record { release_dir = 2; previous_target = some 1; current_switched = false });
}
unfolding run_block run_body take_step commit place_release switch_current atomic_symlink call exit
    rollback cleanup
undone = refl

run_block-Undone_example :
    Undone (some 1) (run_block (commit_step 2 false ∷ switch_step ∷ fail_step ∷ []) host)
run_block-Undone_example =
    run_block-Undone (some 1) (commit_step 2 false ∷ switch_step ∷ fail_step ∷ []) host refl refl

-- A path that is not a link is replaced, and removed by the rollback.
lost :
    (run_block
      (commit_step 2 true ∷ fail_step ∷ [])
      (record host { current_link = other })).1.1.current_link
    ≡ nothing
unfolding run_block run_body take_step commit place_release switch_current atomic_symlink call exit
    rollback cleanup
lost = refl
