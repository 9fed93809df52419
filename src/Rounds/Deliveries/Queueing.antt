-- ===== src/Rounds/Deliveries/Queueing.antt =====
-- persistence/raw_round_repository.py: `create_core_raw_round_delivery`, first and repeated.
use ledgermind_local.Prelude.{ℕ, ◌≡◌, refl, true, some, arith}
use ledgermind_local.Prelude.Tables.{any, update_where, find-update_where, find-any, find_sound}
use ledgermind_local.Rounds.{CoreRawRoundDeliveryRecord, Db}
use ledgermind_local.Rounds.Session.{ok}
use ledgermind_local.Rounds.Deliveries.{
  NewDelivery, has_round, touch, upsert_delivery, get_core_raw_round_delivery,
  create_core_raw_round_delivery,
}

module _ (now : ℕ) (n : NewDelivery) (db : Db) where
  create_delivery-inv :
      (d : CoreRawRoundDeliveryRecord) (db' : Db)
      → create_core_raw_round_delivery now n db ≡ ok (d, db')
      → (upsert_delivery now n db ≡ some db')
        × (get_core_raw_round_delivery n.raw_round_id db' ≡ some d)
  unfolding create_core_raw_round_delivery
  create_delivery-inv d db' h = ground (arith, h)

  upsert_rest :
      (db' : Db)
      → upsert_delivery now n db ≡ some db'
      → db' ≡ record db { deliveries = db'.deliveries }
  unfolding upsert_delivery
  upsert_rest db' h = ground (arith, h)

  -- The row that comes back is the round's, and no other table has changed.
  pub create_delivery_lem :
      (d : CoreRawRoundDeliveryRecord) (db' : Db)
      → create_core_raw_round_delivery now n db ≡ ok (d, db')
      → (get_core_raw_round_delivery n.raw_round_id db' ≡ some d)
        × (db' ≡ record db { deliveries = db'.deliveries })
  create_delivery_lem d db' h =
      let (made, found) = create_delivery-inv d db' h in (found, upsert_rest db' made)

  -- A round that has a row keeps it but for its time.
  pub create_delivery_again :
      (d : CoreRawRoundDeliveryRecord)
      → get_core_raw_round_delivery n.raw_round_id db ≡ some d
      → create_core_raw_round_delivery now n db
        ≡ ok (
          touch now d,
          record db {
            deliveries = update_where (has_round n.raw_round_id) (touch now) db.deliveries;
          },
        )
  unfolding create_core_raw_round_delivery upsert_delivery get_core_raw_round_delivery
  create_delivery_again d found =
      let seen : any (has_round n.raw_round_id) db.deliveries ≡ true =
        find-any (has_round n.raw_round_id) db.deliveries found in
      let after =
        find-update_where (has_round n.raw_round_id) (has_round n.raw_round_id) (touch now)
          db.deliveries (λ a. refl) in
      let mine = find_sound (has_round n.raw_round_id) db.deliveries {a = d} found in
      ground (arith, seen, after, found, mine)
