-- ===== src/Rounds/Session.antt =====
-- persistence/sqlite_uow.py: one connection and one transaction. `durable` is what the file holds,
-- `working` what the open transaction sees. A statement that raises is followed by `__exit__`,
-- which rolls back, so a method returns no state beside an exception.
use ledgermind_local.Prelude.{Bool, true, false, ◌≡◌, refl, ap, arith, if◌then◌else◌}
use ledgermind_local.Rounds.{Db}

-- The exceptions of the persistence layer and of its callers.
pub data Error : Type 0 where
  value_error integrity_error runtime_error unit_of_work_error index_error : Error
  raw_round_error raw_round_conflict raw_round_digest_mismatch raw_round_too_large : Error

pub data Result {ℓ} (A : Type ℓ) : Type ℓ where
  err : Error → Result A
  ok : A → Result A

infixl 5 ◌>>=◌
abbrev pub ◌>>=◌ {ℓ κ} : {A : Type ℓ} {B : Type κ} (m : Result A) (next : A → Result B) → Result B
err e >>= next = err e
ok a >>= next = next a

pub record Session : Type 0 where
  pub durable : Db
  pub working : Db
  pub committed : Bool

-- The body of a `with SQLiteUnitOfWork(...)` block.
abbrev pub Body : Type 0 → Type 0
Body A = Session → Result A × Session

unfoldable pub enter : Db → Session
enter db = record { durable = db; working = db; committed = false }

abbrev pub keep_rows : {A : Type 0} → Session → Result (A × Db) → Result A × Session
keep_rows s (ok (a, db)) = (ok a, record s { working = db })
keep_rows s (err e) = (err e, s)

-- A repository's method inside the block.
unfoldable pub run : {A : Type 0} → (Db → Result (A × Db)) → Body A
run m s = keep_rows s (m s.working)

unfoldable pub commit : Body (Unit {0})
commit s =
    if s.committed
    then (err unit_of_work_error, s)
    else (ok tt, record s { durable = s.working; committed = true })

unfoldable pub rollback : Session → Session
rollback s = if s.committed then s else record s { working = s.durable }

-- `__exit__`: without a commit, or under an exception, the transaction is rolled back. What was
-- committed stays, also when the block raises after it.
unfoldable pub exit : {A : Type 0} → Result A → Session → Session
unfolding rollback
exit (ok a) s = if s.committed then s else rollback s
exit (err e) s = rollback s

-- The whole block: its result, and what the file holds afterwards.
unfoldable pub transaction : {A : Type 0} → Body A → Db → Result A × Db
unfolding enter exit
transaction body db = let (r, s) = body (enter db) in (r, (exit r s).durable)

abbrev pub continue : {A B : Type 0} → Result A × Session → (A → Body B) → Result B × Session
continue (ok a, s) f = f a s
continue (err e, s) f = (err e, s)

infixl 5 ◌>>>=◌
-- Sequencing inside a block.
unfoldable pub ◌>>>=◌ : {A B : Type 0} → Body A → (A → Body B) → Body B
◌>>>=◌ m f s = continue (m s) f

unfoldable pub pure : {A : Type 0} → A → Body A
pure a s = (ok a, s)

unfoldable pub raise : {A : Type 0} → Error → Body A
raise e s = (err e, s)

-- What the file holds after the block, beside the block's result.
abbrev pub ended : {A : Type 0} → Result A × Session → Result A × Db
ended (r, s) = (r, (exit r s).durable)

-- A transaction as a whole: the new rows, or an exception and the old ones.
abbrev pub settle : {A : Type 0} → Db → Result (A × Db) → Result A × Db
settle db (ok (a, db')) = (ok a, db')
settle db (err e) = (err e, db)

pub settle-ok :
    {A : Type 0} (db : Db) {db' : Db} {a : A} (x : Result (A × Db))
    → settle db x ≡ (ok a, db')
    → x ≡ ok (a, db')
settle-ok db (ok y) h = ground (arith, h)
settle-ok db (err e) h = absurd (cc (ap (λ y. y.0) h))

-- The block, begun before its commit, does what `f` says, as a whole or not at all.
pub record Settles {A : Type 0} (m : Body A) (f : Db → Result (A × Db)) : Type 0 where
  pub at : (s : Session) → s.committed ≡ false → ended (m s) ≡ settle s.durable (f s.working)

pub Settles-raise : {A : Type 0} (e : Error) → Settles (raise {A = A} e) (λ db. err e)
unfolding raise exit
Settles-raise e = record { at = λ s h. ground (arith, h) }

pub Settles-commit : {A : Type 0} (a : A) → Settles (commit >>>= λ _. pure a) (λ db. ok (a, db))
unfolding commit pure exit ◌>>>=◌
Settles-commit a = record { at = λ s h. ground (arith, h) }

module _ {A B : Type 0} (k : A → Body B) (g : A → Db → Result (B × Db))
    (rest : (a : A) → Settles (k a) (g a)) where
  run_then :
      (x : Result (A × Db)) (s : Session)
      → s.committed ≡ false
      → ended (continue (keep_rows s x) k) ≡ settle s.durable (x >>= λ y. g y.0 y.1)
  unfolding exit
  run_then (ok (a, db)) s h = (rest a).at (record s { working = db }) h
  run_then (err e) s h = ground (arith, h)

  pub Settles-run :
      (m : Db → Result (A × Db)) → Settles (run m >>>= k) (λ db. m db >>= λ y. g y.0 y.1)
  unfolding run ◌>>>=◌
  Settles-run m = record { at = λ s h. run_then (m s.working) s h }

pub Settles-if :
    {A : Type 0} (b : Bool) {m n : Body A} {f g : Db → Result (A × Db)}
    → Settles m f
    → Settles n g
    → Settles (if b then m else n) (λ db. if b then f db else g db)
Settles-if true h k = h
Settles-if false h k = k

-- Inversion of a chain that returned.
pub >>=-eq-ok {ℓ κ} :
    {A : Type ℓ} {B : Type κ} (m : Result A) (next : A → Result B) {b : B}
    → (m >>= next) ≡ ok b
    → (a : A) × (m ≡ ok a) × (next a ≡ ok b)
>>=-eq-ok (err e) next h = absurd (cc h)
>>=-eq-ok (ok a) next h = (a, refl, h)
