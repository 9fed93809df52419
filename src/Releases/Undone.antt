-- ===== src/Releases/Undone.antt =====
-- What a failed installation leaves, in installer/transaction.py.
use ledgermind_local.Prelude.{
  ℕ, Bool, true, false, Option, none, some, List, [], ◌∷◌, ◌≡◌, refl, sym, ◌∙◌, ap, ◌⊎◌, inl, inr,
  if◌then◌else◌,
}
use ledgermind_local.Releases.{
  Entry, nothing, link, TransactionSnapshot, State, os_error, transaction_error, other_error, Run,
  returned, raised, M, next_fate, later_fates, call_if, call, ignore_error, follow, convert,
  target_of, atomic_symlink, switched, switch_with, switch_current, new_snapshot, place_release,
  commit, put_back, undo_switch, remove_release, uncommitted, rollback, cleanup, exit, Step,
  commit_step, switch_step, fail_step, take_step, run_body, exit_after, run_block,
}

-- What the path `current` may be for the code to put it back.
abbrev pub entry_of : Option ℕ → Entry
entry_of none = nothing
entry_of (some t) = link t

module _ (before : Option ℕ) where
  -- Nothing is committed and the link is as before, or the snapshot says what the link was and whether it
  -- has been switched.
  abbrev KnownBy :
      Option TransactionSnapshot → (current_link : Entry) → (committed is_released : Bool) → Type 0
  KnownBy none entry committed is_released = entry ≡ entry_of before
  KnownBy (some n) entry committed is_released =
      (n.previous_target ≡ before)
      × (committed ≡ true)
      × (is_released ≡ true)
      × ((n.current_switched ≡ true) ⊎ (entry ≡ entry_of before))

  abbrev Known : Option TransactionSnapshot → State → Type 0
  Known o s = KnownBy o s.current_link s.committed s.is_released

  abbrev Inv : State → Type 0
  Inv s = Known s.snapshot s

  abbrev Ends : (Q E : State → Type 0) → Run × State → Type 0
  Ends Q E (returned, s) = Q s
  Ends Q E (raised e, s) = E s

  Ends-follow :
      (R Q E : State → Type 0) (x : Run × State) (k : M)
      → Ends R E x
      → ((s : State) → R s → Ends Q E (k s))
      → Ends Q E (follow x k)
  Ends-follow R Q E (returned, s) k h f = f s h
  Ends-follow R Q E (raised e, s) k h f = h

  Ends-convert : (Q E : State → Type 0) (x : Run × State) → Ends Q E x → Ends Q E (convert x)
  Ends-convert Q E (returned, s) h = h
  Ends-convert Q E (raised os_error, s) h = h
  Ends-convert Q E (raised transaction_error, s) h = h
  Ends-convert Q E (raised other_error, s) h = h

  call_if-Ends :
      (Q E : State → Type 0) (b : Bool) (effect : State → State) (s : State)
      → E s
      → Q (effect s)
      → Ends Q E (call_if b effect s)
  call_if-Ends Q E true effect s h k = h
  call_if-Ends Q E false effect s h k = k

  if_then :
      (P : Run × State → Type 0) (b : Bool) (x y : Run × State)
      → (b ≡ true → P x)
      → (b ≡ false → P y)
      → P (if b then x else y)
  if_then P true x y h k = h refl
  if_then P false x y h k = k refl

  switch_with-Ends :
      (o : Option TransactionSnapshot) (s : State)
      → Inv s
      → Known o s
      → Ends Inv Inv (switch_with o s)
  unfolding atomic_symlink call
  switch_with-Ends none s i h = i
  switch_with-Ends (some n) s i h =
      if_then (Ends Inv Inv) n.current_switched (returned, s)
        (convert (
          follow (atomic_symlink n.release_dir s)
            (λ t. (returned, record t { snapshot = some (switched true n) }))))
        (λ e. i)
        (λ e.
          Ends-convert Inv Inv
            (follow (atomic_symlink n.release_dir s)
              (λ t. (returned, record t { snapshot = some (switched true n) })))
            (Ends-follow (Known (some (switched true n))) Inv Inv (atomic_symlink n.release_dir s)
              (λ t. (returned, record t { snapshot = some (switched true n) }))
              (call_if-Ends (Known (some (switched true n))) Inv (next_fate s.fates)
                (λ t. record t { current_link = link n.release_dir })
                (record s { fates = later_fates s.fates }) i (h.0, h.1, h.2, inl refl))
              (λ t j. j)))

  switch_current-Ends : (s : State) → Inv s → Ends Inv Inv (switch_current s)
  unfolding switch_current
  switch_current-Ends s i = switch_with-Ends s.snapshot s i i

  target_of-entry_of : (o : Option ℕ) → target_of (entry_of o) ≡ o
  target_of-entry_of none = refl
  target_of-entry_of (some t) = refl

  fresh :
      (o : Option TransactionSnapshot) (s : State)
      → Known o s
      → s.is_released ≡ false
      → s.current_link ≡ entry_of before
  fresh none s h e = h
  fresh (some n) s h e = absurd (cc (sym e ∙ h.2))

  place_release-Ends :
      (d : ℕ) (s : State)
      → Inv s
      → s.current_link ≡ entry_of before
      → Ends Inv Inv (place_release d s)
  unfolding place_release call
  place_release-Ends d s i e =
      let P : State → Type 0 = λ t. (t.current_link ≡ entry_of before) × (t.is_released ≡ true) in
      Ends-follow P Inv Inv (call (λ t. record t { is_released = true; is_staged = false }) s)
        (λ t. (returned, record t { snapshot = some (new_snapshot d s); committed = true }))
        (call_if-Ends P Inv (next_fate s.fates)
          (λ t. record t { is_released = true; is_staged = false })
          (record s { fates = later_fates s.fates }) i (e, refl))
        (λ t j. (ap target_of e ∙ target_of-entry_of before, refl, j.1, inr j.0))

  commit-Ends : (d : ℕ) (b : Bool) (s : State) → Inv s → Ends Inv Inv (commit d b s)
  unfolding commit
  commit-Ends d b s i =
      let next : M = λ t. if b then switch_current t else (returned, t) in
      if_then (Ends Inv Inv) s.is_released (raised transaction_error, s)
        (convert (follow (place_release d s) next)) (λ e. i)
        (λ e. Ends-convert Inv Inv (follow (place_release d s) next) (
          Ends-follow Inv Inv Inv (place_release d s) next
            (place_release-Ends d s i (fresh s.snapshot s i e))
            (λ t j.
              if_then (Ends Inv Inv) b (switch_current t) (returned, t)
                (λ f. switch_current-Ends t j) (λ f. j))))

  run_body-Ends : (xs : List Step) (s : State) → Inv s → Ends Inv Inv (run_body xs s)
  unfolding run_body take_step
  run_body-Ends [] s i = i
  run_body-Ends (commit_step d b ∷ xs) s i =
      Ends-follow Inv Inv Inv (commit d b s) (run_body xs) (commit-Ends d b s i)
        (λ t j. run_body-Ends xs t j)
  run_body-Ends (switch_step ∷ xs) s i =
      Ends-follow Inv Inv Inv (switch_current s) (run_body xs) (switch_current-Ends s i)
        (λ t j. run_body-Ends xs t j)
  run_body-Ends (fail_step ∷ xs) s i = i

  -- The link is as it was.
  abbrev pub Back : State → Type 0
  Back s = s.current_link ≡ entry_of before

  abbrev Any : State → Type 0
  Any s = Unit {0}

  put_back-Ends : (o : Option ℕ) (s : State) → o ≡ before → Ends Back Any (put_back o s)
  unfolding call atomic_symlink
  put_back-Ends none s e =
      call_if-Ends Back Any (next_fate s.fates) (λ t. record t { current_link = nothing })
        (record s { fates = later_fates s.fates }) tt (ap entry_of e)
  put_back-Ends (some x) s e =
      call_if-Ends Back Any (next_fate s.fates) (λ t. record t { current_link = link x })
        (record s { fates = later_fates s.fates }) tt (ap entry_of e)

  unswitched :
      (n : TransactionSnapshot) (s : State) → Known (some n) s → n.current_switched ≡ false → Back s
  unswitched n s (p, c, r, inl y) e = absurd (cc (sym e ∙ y))
  unswitched n s (p, c, r, inr b) e = b

  undo_switch-Ends :
      (o : Option TransactionSnapshot) (s : State) → Known o s → Ends Back Any (undo_switch o s)
  undo_switch-Ends none s h = h
  undo_switch-Ends (some n) s h =
      if_then (Ends Back Any) n.current_switched
        (follow (put_back n.previous_target s)
          (λ t. (returned, record t { snapshot = some (switched false n) })))
        (returned, s)
        (λ e.
          Ends-follow Back Back Any (put_back n.previous_target s)
            (λ t. (returned, record t { snapshot = some (switched false n) }))
            (put_back-Ends n.previous_target s h.0) (λ t j. j))
        (λ e. unswitched n s h e)

  ignored-Ends :
      (b : Bool) (effect : State → State) (s : State)
      → Back s
      → Back (effect s)
      → Ends Back Any (ignore_error (call_if b effect s))
  ignored-Ends true effect s h k = h
  ignored-Ends false effect s h k = k

  remove_release-Ends :
      (o : Option TransactionSnapshot) (s : State) → Back s → Ends Back Any (remove_release o s)
  unfolding call
  remove_release-Ends none s h = h
  remove_release-Ends (some n) s h =
      ignored-Ends (next_fate s.fates) (λ t. record t { is_released = false })
        (record s { fates = later_fates s.fates }) h h

  uncommitted-Ends : (x : Run × State) → Ends Back Any x → Ends Back Any (uncommitted x)
  uncommitted-Ends (returned, s) h = h
  uncommitted-Ends (raised e, s) h = h

  rollback-Ends : (s : State) → Inv s → Ends Back Any (rollback s)
  unfolding rollback
  rollback-Ends s i =
      uncommitted-Ends (convert (follow (undo_switch s.snapshot s) (remove_release s.snapshot))) (
        Ends-convert Back Any (follow (undo_switch s.snapshot s) (remove_release s.snapshot)) (
          Ends-follow Back Back Any (undo_switch s.snapshot s) (remove_release s.snapshot)
            (undo_switch-Ends s.snapshot s i) (λ t j. remove_release-Ends s.snapshot t j)))

  cleanup-Ends : (s : State) → Back s → Ends Back Any (cleanup s)
  unfolding cleanup call
  cleanup-Ends s h =
      ignored-Ends (next_fate s.fates) (λ t. record t { is_staged = false })
        (record s { fates = later_fates s.fates }) h h

  uncommitted_link :
      (o : Option TransactionSnapshot) (s : State) → Known o s → s.committed ≡ false → Back s
  uncommitted_link none s h e = h
  uncommitted_link (some n) s h e = absurd (cc (sym e ∙ h.1))

  exit-Ends : (s : State) → Inv s → Ends Back Any (exit true s)
  unfolding exit
  exit-Ends s i =
      Ends-follow Back Back Any (if s.committed then rollback s else (returned, s)) cleanup
        (if_then (Ends Back Any) s.committed (rollback s) (returned, s) (λ e. rollback-Ends s i)
          (λ e. uncommitted_link s.snapshot s i e))
        (λ t j. cleanup-Ends t j)

  -- Of a block whose body raised and whose exit returned: the link is as before.
  abbrev pub Undone : Bool × (Run × State) → Type 0
  Undone (true, (returned, s)) = Back s
  Undone (true, (raised e, s)) = Unit {0}
  Undone (false, x) = Unit {0}

  after : (x : Run × State) → Ends Inv Inv x → Undone (exit_after x)
  after (returned, s) h = tt
  after (raised e, s) h = told (exit true s) (exit-Ends s h)
    where
      told : (x : Run × State) → Ends Back Any x → Undone (true, x)
      told (returned, s) h = h
      told (raised e, s) h = tt

-- A block of an installation starts without a snapshot, over no link or a link to some release. It commits
-- and switches in any order and any number, and calls of the file system may fail at any of its steps.
-- When its body raises and its exit does not, the link is the one from before.
pub run_block-Undone :
    (before : Option ℕ) (xs : List Step) (s : State)
    → s.snapshot ≡ none
    → s.current_link ≡ entry_of before
    → Undone before (run_block xs s)
unfolding run_block
run_block-Undone before xs s e h =
    after before (run_body xs s) (run_body-Ends before xs s (known s.snapshot e))
  where
    known : (o : Option TransactionSnapshot) → o ≡ none → Known before o s
    known none e = h
    known (some n) e = absurd (cc e)
