-- ===== src/Backups/Restored.antt =====
-- installer/transaction.py: an installation as a sequence of backups and changes, and its restoration.
use ledgermind_local.Prelude.{
  ◌≡◌, refl, sym, ap, ◌∙◌, true, false, Option, none, some, List, [], ◌∷◌, ◌++◌, String, arith, All,
  All-append, inl, inr, Bool-cases, text_eq, text_eq_iff, text_eq_sym,
}
use ledgermind_local.Prelude.Tables.{any}
use ledgermind_local.Backups.{
  File, Files, FileBackup, put, is_backed_up, backup_of, backup_file, saved, restore_backups,
}

pub data Action : Type 0 where
  back_up : String → Action
  change : String → Option File → Action

pub record Installation : Type 0 where
  pub files : Files
  pub backups : List FileBackup

unfoldable pub act : Action → Installation → Installation
act (back_up path) s = record s { backups = backup_file path s.files s.backups }
act (change path f) s = record s { files = put path f s.files }

unfoldable pub act_all : List Action → Installation → Installation
act_all [] s = s
act_all (a ∷ acts) s = act_all acts (act a s)

-- A file is changed only after its backup.
abbrev pub IsGuarded : List Action → Installation → Type 0
IsGuarded [] s = Unit
IsGuarded (back_up path ∷ acts) s = IsGuarded acts (act (back_up path) s)
IsGuarded (change path f ∷ acts) s =
    (is_backed_up path s.backups ≡ true) × IsGuarded acts (act (change path f) s)

-- The backups are of the files as they were at the start, and other files are as they were.
record IsSafe (start : Files) (s : Installation) : Type 0 where
  originals : All (λ b. saved b ≡ start b.path) s.backups
  others : (p : String) → is_backed_up p s.backups ≡ false → s.files p ≡ start p

saved-backup_of : (path : String) (o : Option File) → saved (backup_of path o) ≡ o
saved-backup_of path none = refl
saved-backup_of path (some f) = refl

path-backup_of : (path : String) (o : Option File) → (backup_of path o).path ≡ path
path-backup_of path none = refl
path-backup_of path (some f) = refl

any-last :
    (p : String) (bs : List FileBackup) (b : FileBackup)
    → is_backed_up p (bs ++ b ∷ []) ≡ false
    → (is_backed_up p bs ≡ false) × (text_eq b.path p ≡ false)
unfolding any
any-last p [] b h = ground (arith, h)
any-last p (x ∷ bs) b h = elim (Bool-cases (text_eq x.path p)) [
  | inl y ↦ absurd (ground (arith, y, h))
  | inr n ↦ let k = any-last p bs b (ground (arith, n, h)) in (ground (arith, n, k.0), k.1)
]

back_up-IsSafe :
    (start : Files) (path : String) (s : Installation)
    → IsSafe start s
    → IsSafe start (act (back_up path) s)
unfolding act backup_file
back_up-IsSafe start path s h = elim (Bool-cases (is_backed_up path s.backups)) [
  | inl old ↦ rw old (record { originals = h.originals; others = h.others })
  | inr new ↦ rw new (record {
    originals =
        All-append (λ b. saved b ≡ start b.path) s.backups _ h.originals
          (
            saved-backup_of path (s.files path)
                ∙ h.others path new
                ∙ ap start (sym (path-backup_of path (s.files path))),
            tt,
          );
    others = λ p k. h.others p (any-last p s.backups (backup_of path (s.files path)) k).0;
  })
]

change-IsSafe :
    (start : Files) (path : String) (f : Option File) (s : Installation)
    → is_backed_up path s.backups ≡ true
    → IsSafe start s
    → IsSafe start (act (change path f) s)
unfolding act put
change-IsSafe start path f s backed h = record {
  originals = h.originals;
  others = λ p other. elim (Bool-cases (text_eq p path)) [
    | inl y ↦ absurd (
        let e : p ≡ path = (text_eq_iff p path).0 y in
        cc (ap (λ x. is_backed_up x s.backups) e, other, backed))
    | inr n ↦ rw n (h.others p other)
  ];
}

restore-eq :
    (start files : Files) (bs : List FileBackup) (p : String)
    → All (λ b. saved b ≡ start b.path) bs
    → (is_backed_up p bs ≡ false → files p ≡ start p)
    → restore_backups bs files p ≡ start p
unfolding restore_backups put any
restore-eq start files [] p h k = k refl
restore-eq start files (b ∷ bs) p h k = elim (Bool-cases (text_eq p b.path)) [
  | inl y ↦ rw y (h.0 ∙ ap start (sym ((text_eq_iff p b.path).0 y)))
  | inr n ↦
      rw n (restore-eq start files bs p h.1 (λ m. k (ground (arith, m, text_eq_sym b.path p, n))))
]

act_all-IsSafe :
    (start : Files) (acts : List Action) (s : Installation)
    → IsGuarded acts s
    → IsSafe start s
    → IsSafe start (act_all acts s)
unfolding act_all
act_all-IsSafe start [] s g h = h
act_all-IsSafe start (back_up path ∷ acts) s g h =
    act_all-IsSafe start acts _ g (back_up-IsSafe start path s h)
act_all-IsSafe start (change path f ∷ acts) s g h =
    act_all-IsSafe start acts _ g.1 (change-IsSafe start path f s g.0 h)

-- Where an installation that starts with no backups changes a file only after its backup, restoring
-- the backups brings every file back as it was at the start, and removes those that were not there.
pub restore_backups-start :
    (files : Files) (acts : List Action) (p : String)
    → IsGuarded acts (record { files = files; backups = [] })
    → let s = act_all acts (record { files = files; backups = [] }) in
      restore_backups s.backups s.files p ≡ files p
restore_backups-start files acts p g =
    let s = act_all acts (record { files = files; backups = [] }) in
    let h =
      act_all-IsSafe files acts (record { files = files; backups = [] }) g
        (record { originals = tt; others = λ q _. refl }) in
    restore-eq files s.files s.backups p h.originals (h.others p)
