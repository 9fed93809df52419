-- ===== src/Backups.antt =====
-- installer/transaction.py: the backups that InstallTransaction makes of the files that an installation
-- changes, and their restoration. The files of the machine are a map from paths; `none` is a path at
-- which there is no regular file. A file's mode is its permission bits, the `st_mode & 0o777` of the
-- code; directories are not modelled.
pub mod Restored
use ledgermind_local.Prelude.{
  ℕ, Bool, true, false, Option, none, some, List, [], ◌∷◌, ◌++◌, String, if◌then◌else◌, text_eq,
}
use ledgermind_local.Prelude.Tables.{any}

pub record File : Type 0 where
  pub content : List ℕ
  pub mode : ℕ

abbrev pub Files : Type 0
Files = String → Option File

pub record FileBackup : Type 0 where
  pub path : String
  pub existed : Bool
  pub content : List ℕ
  pub mode : ℕ

-- Makes, replaces or removes the file at a path.
unfoldable pub put : String → Option File → Files → Files
put path f files p = if text_eq p path then f else files p

abbrev pub is_backed_up : String → List FileBackup → Bool
is_backed_up path backups = any (λ (b : FileBackup). text_eq b.path path) backups

abbrev pub backup_of : String → Option File → FileBackup
backup_of path none = record { path = path; existed = false; content = []; mode = 384 }
backup_of path (some f) = record { path = path; existed = true; content = f.content; mode = f.mode }

unfoldable pub backup_file : String → Files → List FileBackup → List FileBackup
backup_file path files backups =
    if is_backed_up path backups then backups else backups ++ backup_of path (files path) ∷ []

-- The file that a backup brings back.
abbrev pub saved : FileBackup → Option File
saved b = if b.existed then some (record { content = b.content; mode = b.mode }) else none

-- The loop over `reversed(self.backups)`.
unfoldable pub restore_backups : List FileBackup → Files → Files
unfolding put
restore_backups [] files = files
restore_backups (b ∷ bs) files = put b.path (saved b) (restore_backups bs files)
