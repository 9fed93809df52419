-- ===== src/Migrations/Progress.antt =====
-- `apply_migrations` of persistence/migrations.py: how far it gets, and what a second call does.
use mathlib.Core.List.{append-nil, append_assoc}
use ledgermind_local.Prelude.{Bool, false, List, [], ◌∷◌, ◌++◌, map, ◌≡◌, refl, sym, ◌∙◌, ap, subst}
use ledgermind_local.Migrations.{
  Migration, Applied, Connection, Run, returned, raised, follow, apply_single_migration,
  apply_pending, apply_from, apply_loaded, apply_migrations, sort_by,
}
use ledgermind_local.Migrations.Ordered.{InOrder, row, validate_lem, load_lem, keep-is_pending}
use ledgermind_local.Migrations.History.{Ends, Ends-follow, Stands, single-Ends}

-- The first ones of the migrations are recorded.
abbrev pub Progressed : List Applied → List Migration → Bool → Connection → Type 0
Progressed rows ms F c =
    (pre : List Migration) × ((post : List Migration) × ((ms ≡ pre ++ post)
        × Stands (rows ++ map row pre) F c))

stands :
    (rows rows' : List Applied) (F : Bool) (c : Connection)
    → rows ≡ rows'
    → Stands rows F c
    → Stands rows' F c
stands rows rows' F c e h = (h.0 ∙ e, h.1, h.2)

pending-Ends :
    (rows : List Applied) (ms : List Migration) (F : Bool) (c : Connection)
    → Stands rows F c
    → Ends (λ u. Stands (rows ++ map row ms) F) (Progressed rows ms F) (apply_pending ms c)
unfolding apply_pending
pending-Ends rows [] F c h = stands rows (rows ++ []) F c (sym (append-nil rows)) h
pending-Ends rows (m ∷ ms) F c h =
    Ends-follow (λ u. Stands (rows ++ row m ∷ []) F) (λ u. Stands (rows ++ row m ∷ map row ms) F)
      (Progressed rows (m ∷ ms) F) (apply_single_migration m c) (λ u. apply_pending ms)
      (first (apply_single_migration m c) (single-Ends rows F m c h))
      (λ u d i. rest (apply_pending ms d) (pending-Ends (rows ++ row m ∷ []) ms F d i))
  where
    first :
        (x : Run (Unit {0}) × Connection)
        → Ends (λ u. Stands (rows ++ row m ∷ []) F) (Stands rows F) x
        → Ends (λ u. Stands (rows ++ row m ∷ []) F) (Progressed rows (m ∷ ms) F) x
    first (returned u, d) i = i
    first (raised e, d) i =
        ([], (m ∷ ms, (refl, stands rows (rows ++ []) F d (sym (append-nil rows)) i)))

    rest :
        (x : Run (Unit {0}) × Connection)
        → Ends
            (λ u. Stands ((rows ++ row m ∷ []) ++ map row ms) F)
            (Progressed (rows ++ row m ∷ []) ms F)
            x
        → Ends (λ u. Stands (rows ++ row m ∷ map row ms) F) (Progressed rows (m ∷ ms) F) x
    rest (returned u, d) i = stands _ _ F d (append_assoc rows (row m ∷ []) (map row ms)) i
    rest (raised e, d) (pre, (post, (split, i))) = (
      m ∷ pre,
      (
        post,
        (ap (λ xs. m ∷ xs) split, stands _ _ F d (append_assoc rows (row m ∷ []) (map row pre)) i),
      ),
    )

loaded_lem :
    (discovered ms pending : List Migration) (c : Connection)
    → sort_by (λ (m : Migration). m.version) discovered ≡ ms ++ pending
    → InOrder 0 (ms ++ pending)
    → c.database.schema_migrations ≡ map row ms
    → apply_migrations discovered c
      ≡ follow (apply_pending pending c) (λ u d. (returned pending, d))
unfolding apply_migrations
loaded_lem discovered ms pending c e h r =
    ap (λ x. apply_loaded x c) (load_lem 0 discovered (ms ++ pending) e h)
    ∙ ap (λ x. apply_from (ms ++ pending) x c) (validate_lem ms pending c.database h r)
    ∙ ap (λ xs. follow (apply_pending xs c) (λ u d. (returned xs, d)))
        (keep-is_pending 0 ms pending h)

-- The packaged migrations have distinct positive versions, those of the history are the first ones of them
-- with their checksums, and the connection is in no transaction. Then, whichever statement fails, the
-- connection ends in no transaction, with its foreign keys as they were. When the call returns, it returns
-- the pending migrations and the history is complete; when it raises, the history is the first ones again.
pub apply_migrations-Progressed :
    (discovered ms pending : List Migration) (c : Connection)
    → sort_by (λ (m : Migration). m.version) discovered ≡ ms ++ pending
    → InOrder 0 (ms ++ pending)
    → c.database.schema_migrations ≡ map row ms
    → c.in_transaction ≡ false
    → Ends
        (λ applied d. (applied ≡ pending) × Stands (map row ms ++ map row pending) c.foreign_keys d)
        (Progressed (map row ms) pending c.foreign_keys)
        (apply_migrations discovered c)
apply_migrations-Progressed discovered ms pending c e h r t =
    subst_run (sym (loaded_lem discovered ms pending c e h r)) (
      Ends-follow (λ u. Stands (map row ms ++ map row pending) c.foreign_keys)
        (λ applied d. (applied ≡ pending) × Stands (map row ms ++ map row pending) c.foreign_keys d)
        (Progressed (map row ms) pending c.foreign_keys) (apply_pending pending c)
        (λ u d. (returned pending, d))
        (pending-Ends (map row ms) pending c.foreign_keys c (r, t, refl)) (λ u d i. (refl, i)))
  where
    subst_run :
        {x y : Run (List Migration) × Connection}
        → x ≡ y
        → Ends
            (λ applied d.
              (applied ≡ pending) × Stands (map row ms ++ map row pending) c.foreign_keys d)
            (Progressed (map row ms) pending c.foreign_keys)
            x
        → Ends
            (λ applied d.
              (applied ≡ pending) × Stands (map row ms ++ map row pending) c.foreign_keys d)
            (Progressed (map row ms) pending c.foreign_keys)
            y
    subst_run p =
        subst
          (Ends
            (λ applied d.
              (applied ≡ pending) × Stands (map row ms ++ map row pending) c.foreign_keys d)
            (Progressed (map row ms) pending c.foreign_keys))
          p

-- On a complete history a call applies nothing and changes nothing.
pub apply_migrations_again :
    (discovered ms : List Migration) (c : Connection)
    → sort_by (λ (m : Migration). m.version) discovered ≡ ms
    → InOrder 0 ms
    → c.database.schema_migrations ≡ map row ms
    → apply_migrations discovered c ≡ (returned [], c)
unfolding apply_pending
apply_migrations_again discovered ms c e h r =
    loaded_lem discovered ms [] c (e ∙ sym (append-nil ms))
      (subst (InOrder 0) (sym (append-nil ms)) h) r
