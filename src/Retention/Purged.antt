-- ===== src/Retention/Purged.antt =====
-- scheduler/retention_worker.py: how many bodies a pass purges.
use ledgermind_local.Prelude.{
  ℕ, ◌+◌, ◌≤◌, max, ◌≡◌, refl, ap, subst, true, List, [], ◌∷◌, arith, All, All-map, All-both,
  All-take, length, length-take, take, ==_refl, ltb, inl, inr, Bool-cases,
}
use ledgermind_local.Prelude.Tables.{
  select, update_where, rowcount, order_by, Distinct, Distinct-update_where, Elem, All-Elem,
  All-select, All-select_test, All-order_by, All-key, All-update_where, rowcount-key,
}
use ledgermind_local.Rounds.{PayloadRow, Db}
use ledgermind_local.Rounds.Session.{ok, run, commit, transaction, ◌>>>=◌, pure, enter, exit}
use ledgermind_local.Rounds.RawRounds.{
  payload_has_id, same_payload_id, clear, clear_test, is_expired, expires_before, purge_rows,
  purge_expired,
}
use ledgermind_local.Retention.{purge_once}

-- Only expired rows are under the UPDATE for `k`.
abbrev IsDue : (cutoff k : ℕ) → PayloadRow → Type 0
IsDue cutoff k p = clear_test k p ≡ true → is_expired cutoff p ≡ true

abbrev pub expired_count : ℕ → List PayloadRow → ℕ
expired_count cutoff rows = rowcount (is_expired cutoff) rows

update-count :
    (cutoff k : ℕ) (xs : List PayloadRow)
    → All (IsDue cutoff k) xs
    → expired_count cutoff xs
      ≡ rowcount (clear_test k) xs
        + expired_count cutoff (update_where (clear_test k) (clear cutoff) xs)
unfolding rowcount update_where
update-count cutoff k [] h = omega arith
update-count cutoff k (x ∷ xs) h = elim (Bool-cases (clear_test k x)) [
  | inl y ↦ rw y (rw (h.0 y) (omega (arith, update-count cutoff k xs h.1)))
  | inr n ↦ rw n (elim (Bool-cases (is_expired cutoff x)) [
    | inl over ↦ rw over (omega (arith, update-count cutoff k xs h.1))
    | inr fresh ↦ rw fresh (omega (arith, update-count cutoff k xs h.1))
  ])
]

update-IsDue :
    (cutoff k j : ℕ) (xs : List PayloadRow)
    → All (IsDue cutoff j) xs
    → All (IsDue cutoff j) (update_where (clear_test k) (clear cutoff) xs)
update-IsDue cutoff k j xs h =
    All-update_where (IsDue cutoff j) (IsDue cutoff j) (clear_test k) (clear cutoff) xs
      (λ p _ _ e. absurd (ground (arith, e))) (λ p _ g. g) h

purge_rows-count :
    (cutoff : ℕ) (rows xs : List PayloadRow)
    → All (λ (row : PayloadRow). All (IsDue cutoff row.raw_round_id) xs) rows
    → expired_count cutoff xs
      ≡ (purge_rows cutoff rows xs).0 + expired_count cutoff (purge_rows cutoff rows xs).1
unfolding purge_rows
purge_rows-count cutoff [] xs h = omega arith
purge_rows-count cutoff (row ∷ rows) xs h =
    let k = row.raw_round_id in
    let xs' = update_where (clear_test k) (clear cutoff) xs in
    omega (
      arith,
      update-count cutoff k xs h.0,
      purge_rows-count cutoff rows xs'
          (All-map (λ (r : PayloadRow) g. update-IsDue cutoff k r.raw_round_id xs g) rows h.1),
    )

purge_rows-le :
    (cutoff : ℕ) (rows xs : List PayloadRow)
    → Distinct same_payload_id xs
    → (purge_rows cutoff rows xs).0 ≤ length rows
unfolding purge_rows
purge_rows-le cutoff [] xs d = omega arith
purge_rows-le cutoff (row ∷ rows) xs d =
    let k = row.raw_round_id in
    let one =
      rowcount-key same_payload_id (payload_has_id k) (λ a b e f. ground arith) (clear_test k)
        (λ b t. ground arith) xs d in
    let d' =
      Distinct-update_where same_payload_id (clear_test k) (clear cutoff) (λ a b. (refl, refl)) xs
        d in
    omega (arith, one, purge_rows-le cutoff rows (update_where (clear_test k) (clear cutoff) xs) d')

selected-IsDue :
    (cutoff n : ℕ) (xs : List PayloadRow)
    → Distinct same_payload_id xs
    → All
        (λ (row : PayloadRow). All (IsDue cutoff row.raw_round_id) xs)
        (take n (order_by expires_before (select (is_expired cutoff) xs)))
selected-IsDue cutoff n xs d = All-take _ n _ (
    All-order_by _ expires_before _ (
      All-both {P = λ row. Elem row xs} {Q = λ row. is_expired cutoff row ≡ true}
        (λ row e x.
          All-map (λ p same t. rw (same (ground (arith, t))) x) xs
            (All-key same_payload_id (payload_has_id row.raw_round_id) (λ a b g h. ground arith) row
              d e (==_refl row.raw_round_id)))
        (select (is_expired cutoff) xs)
        (All-select (λ row. Elem row xs) (is_expired cutoff) xs (All-Elem xs))
        (All-select_test (is_expired cutoff) xs)))

purge_once-inv :
    (cutoff limit n : ℕ) (db db' : Db)
    → purge_once cutoff limit db ≡ (ok n, db')
    → (1 ≤ limit) × (purge_expired cutoff limit db ≡ (n, db'))
unfolding purge_once transaction enter exit run commit pure ◌>>>=◌
purge_once-inv cutoff limit n db db' e = elim (Bool-cases (ltb limit 1)) [
  | inl none_asked ↦ absurd (cc (ap (λ y. y.0) (rw (none_asked, purge_once) at e)))
  | inr asked ↦
      let k = rw (asked, purge_once) at e in
      let p : (purge_expired cutoff limit db).0 ≡ n = cc (ap (λ y. y.0) k) in
      let q : (purge_expired cutoff limit db).1 ≡ db' = ap (λ y. y.1) k in
      (ground (arith, asked), λ i. (p i, q i))
]

purge_expired-count :
    (cutoff limit : ℕ) (db : Db)
    → Distinct same_payload_id db.payloads
    → 1 ≤ limit
    → ((purge_expired cutoff limit db).0 ≤ limit)
      × (expired_count cutoff db.payloads
          ≡ (purge_expired cutoff limit db).0
            + expired_count cutoff (purge_expired cutoff limit db).1.payloads)
unfolding purge_expired
purge_expired-count cutoff limit db d asked =
    let found = order_by expires_before (select (is_expired cutoff) db.payloads) in
    let rows = take (max limit 1) found in
    (
      omega (arith, purge_rows-le cutoff rows db.payloads d, length-take (max limit 1) found),
      purge_rows-count cutoff rows db.payloads (selected-IsDue cutoff (max limit 1) db.payloads d),
    )

-- Where the rows have distinct ids: a pass that returns n has n at most its limit, and the number of
-- bodies that are kept past the cutoff has fallen by exactly n.
pub purge_once-count :
    (cutoff limit n : ℕ) (db db' : Db)
    → Distinct same_payload_id db.payloads
    → purge_once cutoff limit db ≡ (ok n, db')
    → (n ≤ limit) × (expired_count cutoff db.payloads ≡ n + expired_count cutoff db'.payloads)
purge_once-count cutoff limit n db db' d e =
    let (asked, done) = purge_once-inv cutoff limit n db db' e in
    subst
      (λ (y : ℕ × Db).
        (y.0 ≤ limit)
        × (expired_count cutoff db.payloads ≡ y.0 + expired_count cutoff y.1.payloads))
      done (purge_expired-count cutoff limit db d asked)
