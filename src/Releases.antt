-- ===== src/Releases.antt =====
-- installer/transaction.py: the commit of a staged release, the switch of the `current` link, and the
-- rollback. Of the machine there are the link, the release's directory and the staged one. A call of the
-- file system raises an OSError or has its effect; the removal of a directory ignores its errors.
pub mod Undone
use ledgermind_local.Prelude.{
  ℕ, Bool, true, false, Option, none, some, List, [], ◌∷◌, if◌then◌else◌,
}

-- The path `current`: nothing, a symbolic link, or anything else.
pub data Entry : Type 0 where
  nothing : Entry
  link : (target : ℕ) → Entry
  other : Entry

pub record TransactionSnapshot : Type 0 where
  pub release_dir : ℕ
  pub previous_target : Option ℕ
  pub current_switched : Bool

pub record State : Type 0 where
  pub fates : List Bool  -- whether the next call raises, or its removal is ignored
  pub current_link : Entry
  pub is_released : Bool
  pub is_staged : Bool
  pub snapshot : Option TransactionSnapshot
  pub committed : Bool

pub data Error : Type 0 where
  os_error transaction_error other_error : Error

pub data Run : Type 0 where
  returned : Run
  raised : Error → Run

abbrev pub M : Type 0
M = State → Run × State

abbrev pub next_fate : List Bool → Bool
next_fate [] = false
next_fate (b ∷ bs) = b

abbrev pub later_fates : List Bool → List Bool
later_fates [] = []
later_fates (b ∷ bs) = bs

abbrev pub call_if : Bool → (State → State) → M
call_if true effect s = (raised os_error, s)
call_if false effect s = (returned, effect s)

unfoldable pub call : (State → State) → M
call effect s = call_if (next_fate s.fates) effect (record s { fates = later_fates s.fates })

-- `shutil.rmtree(..., ignore_errors=True)`
abbrev pub ignore_error : Run × State → Run × State
ignore_error (returned, s) = (returned, s)
ignore_error (raised e, s) = (returned, s)

abbrev pub follow : Run × State → M → Run × State
follow (returned, s) next = next s
follow (raised e, s) next = (raised e, s)

-- An OSError becomes a TransactionError.
abbrev pub convert : Run × State → Run × State
convert (returned, s) = (returned, s)
convert (raised os_error, s) = (raised transaction_error, s)
convert (raised transaction_error, s) = (raised transaction_error, s)
convert (raised other_error, s) = (raised other_error, s)

abbrev pub target_of : Entry → Option ℕ
target_of nothing = none
target_of (link t) = some t
target_of other = none

-- `_atomic_symlink` over the link
unfoldable pub atomic_symlink : ℕ → M
unfolding call
atomic_symlink target = call (λ s. record s { current_link = link target })

abbrev pub switched : Bool → TransactionSnapshot → TransactionSnapshot
switched b n = record n { current_switched = b }

abbrev pub switch_with : Option TransactionSnapshot → M
switch_with none s = (raised transaction_error, s)
switch_with (some n) s =
    if n.current_switched
    then (returned, s)
    else convert (
        follow (atomic_symlink n.release_dir s)
          (λ t. (returned, record t { snapshot = some (switched true n) })))

-- `switch_current`
unfoldable pub switch_current : M
unfolding atomic_symlink
switch_current s = switch_with s.snapshot s

abbrev pub new_snapshot : ℕ → State → TransactionSnapshot
new_snapshot release_dir s = record {
  release_dir = release_dir;
  previous_target = target_of s.current_link;
  current_switched = false;
}

-- `os.replace(source, release_dir)`, and the snapshot of what was before
unfoldable pub place_release : ℕ → M
unfolding call
place_release release_dir s =
    follow (call (λ t. record t { is_released = true; is_staged = false }) s)
      (λ t. (returned, record t { snapshot = some (new_snapshot release_dir s); committed = true }))

-- `commit`
unfoldable pub commit : (release_dir : ℕ) → (is_switching : Bool) → M
unfolding place_release switch_current
commit release_dir is_switching s =
    if s.is_released
    then (raised transaction_error, s)
    else convert (
        follow (place_release release_dir s)
          (λ t. if is_switching then switch_current t else (returned, t)))

abbrev pub put_back : Option ℕ → M
put_back none = call (λ s. record s { current_link = nothing })
put_back (some t) = atomic_symlink t

abbrev pub undo_switch : Option TransactionSnapshot → M
undo_switch none s = (returned, s)
undo_switch (some n) s =
    if n.current_switched
    then follow (put_back n.previous_target s)
        (λ t. (returned, record t { snapshot = some (switched false n) }))
    else (returned, s)

abbrev pub remove_release : Option TransactionSnapshot → M
remove_release none s = (returned, s)
remove_release (some n) s = ignore_error (call (λ t. record t { is_released = false }) s)

abbrev pub uncommitted : Run × State → Run × State
uncommitted (r, s) = (r, record s { committed = false })

-- `rollback`
unfoldable pub rollback : M
unfolding call atomic_symlink
rollback s = uncommitted (convert (follow (undo_switch s.snapshot s) (remove_release s.snapshot)))

-- `cleanup`
unfoldable pub cleanup : M
unfolding call
cleanup s = ignore_error (call (λ t. record t { is_staged = false }) s)

-- `__exit__`, of a body that raised or not
unfoldable pub exit : (has_raised : Bool) → M
unfolding rollback cleanup
exit has_raised s =
    if has_raised
    then follow (if s.committed then rollback s else (returned, s)) cleanup
    else cleanup s

-- What a `with` block does with the transaction, one call after the other, until one raises.
pub data Step : Type 0 where
  commit_step : (release_dir : ℕ) → (is_switching : Bool) → Step
  switch_step fail_step : Step

unfoldable pub take_step : Step → M
unfolding commit switch_current
take_step (commit_step d b) = commit d b
take_step switch_step = switch_current
take_step fail_step = λ s. (raised other_error, s)

unfoldable pub run_body : List Step → M
unfolding take_step
run_body [] s = (returned, s)
run_body (x ∷ xs) s = follow (take_step x s) (run_body xs)

-- The block's body, and `__exit__`: whether the body raised, and how the exit ended.
abbrev pub exit_after : Run × State → Bool × (Run × State)
exit_after (returned, s) = (false, exit false s)
exit_after (raised e, s) = (true, exit true s)

unfoldable pub run_block : List Step → State → Bool × (Run × State)
unfolding run_body exit
run_block xs s = exit_after (run_body xs s)
