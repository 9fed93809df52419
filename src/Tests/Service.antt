-- ===== src/Tests/Service.antt =====
-- The leases, the token budget and the retention.
use ledgermind_local.Prelude.{ℕ, ◌+◌, ◌≤◌, min, ◌≡◌, refl, none, some, [], ◌∷◌, List, All, text_eq}
use ledgermind_local.Prelude.Text.{strip, strip_left, strip_right, is_blank, is_space, is_empty}
use ledgermind_local.Prelude.Tables.{select, order_by, insert_by, update_where, rowcount}
use ledgermind_local.Rounds.{Db, PayloadRow, empty_db}
use ledgermind_local.Rounds.Session.{ok, run, commit, transaction, ◌>>>=◌, pure, enter, exit}
use ledgermind_local.Rounds.RawRounds.{purge_expired, purge_rows, expires_before}
use ledgermind_local.Leases.{
  Lease, LeaseFile, done, acquire, active, reap_expired, reap, read_all, acquire_among, canonical,
  release_others, refresh, write,
}
use ledgermind_local.Leases.Named.{
  Call, acquire_call, heartbeat_call, active_call, release_call, apply_calls, apply_calls-IsNamed,
}
use ledgermind_local.Leases.Held.{IsHeld, IsNamed, acquire-IsHeld}
use ledgermind_local.Budget.{estimate_text, estimate_loop}
use ledgermind_local.Budget.Request.{
  ModelRequest, estimate_request, estimate_messages, messages_loop, ensure_within, passed,
  contract_of, nonempty_name,
}
use ledgermind_local.Budget.Bound.{total_text, part_tokens, estimate_request-eq}
use ledgermind_local.Retention.{purge_once}
use ledgermind_local.Retention.Purged.{expired_count, purge_once-count}

abbrev lease_of : (lease_id created expires : ℕ) → Lease
lease_of k created expires = record {
  lease_id = k;
  client = "hermes";
  session_id = "s";
  created_at = created;
  expires_at = expires;
  ttl_seconds = 30;
}

abbrev file_of : Lease → LeaseFile
file_of l = record { name = l.lease_id; content = some l }

-- Two leases of one session.
abbrev lease_files : List LeaseFile
lease_files = file_of (lease_of 1 20 90) ∷ file_of (lease_of 2 10 80) ∷ []

named : All IsNamed lease_files
named = (λ l e. cc e, (λ l e. cc e, tt))

both_refreshed :
    acquire 30 70 70 9 " hermes" "s" none lease_files
    ≡ (done (lease_of 2 10 100), file_of (lease_of 2 10 100) ∷ [])
unfolding acquire active reap_expired reap read_all acquire_among canonical release_others refresh
    write select order_by insert_by strip strip_left strip_right is_blank is_space text_eq is_empty
both_refreshed = refl

acquire-IsHeld_example :
    IsHeld (strip " hermes") (strip "s") (lease_of 2 10 100) (file_of (lease_of 2 10 100) ∷ [])
    × (70 + 30 ≤ 100)
acquire-IsHeld_example =
    acquire-IsHeld 30 70 70 9 " hermes" "s" none lease_files (lease_of 2 10 100)
      (file_of (lease_of 2 10 100) ∷ []) named both_refreshed

abbrev lease_calls : List Call
lease_calls =
    acquire_call 30 70 70 9 "hermes" "s" none
    ∷ heartbeat_call (some 2) 80
    ∷ active_call 85
    ∷ release_call (some 2)
    ∷ []

apply_calls-IsNamed_example : All IsNamed (apply_calls lease_calls lease_files)
apply_calls-IsNamed_example = apply_calls-IsNamed lease_calls lease_files named

abbrev chat : ModelRequest
chat = record {
  messages = "abcd" ∷ "é" ∷ [];
  output_contract = none;
  response_format = some "{}";
  tool_name = none;
}

estimate_request-eq_example :
    (estimate_request 100 chat).estimated_tokens
    ≡ min 100 (
        total_text 100 chat.messages
        + part_tokens 100 (contract_of chat)
        + part_tokens 100 (nonempty_name chat.tool_name))
estimate_request-eq_example = estimate_request-eq 100 chat

chat_passes : ensure_within 100 3 chat ≡ passed 3
unfolding ensure_within estimate_request estimate_messages messages_loop estimate_text estimate_loop
chat_passes = refl

abbrev body_until : (raw_round_id expires : ℕ) → PayloadRow
body_until k expires = record {
  raw_round_id = k;
  payload_json = "[]";
  payload_bytes = 2;
  retention_expires_at = some expires;
  deleted_at = none;
}

abbrev bodies_db : Db
bodies_db = record empty_db { payloads = body_until 1 50 ∷ body_until 2 40 ∷ body_until 3 90 ∷ [] }

abbrev purged_db : Db
purged_db = record empty_db {
  payloads =
      body_until 1 50
      ∷ record (body_until 2 40) { payload_json = "{}"; payload_bytes = 0; deleted_at = some 60 }
      ∷ body_until 3 90
      ∷ [];
}

oldest_purged : purge_once 60 1 bodies_db ≡ (ok 1, purged_db)
unfolding purge_once transaction enter exit run commit pure ◌>>>=◌ purge_expired purge_rows
    expires_before select order_by insert_by update_where rowcount
oldest_purged = refl

purge_once-count_example :
    (1 ≤ 1) × (expired_count 60 bodies_db.payloads ≡ 1 + expired_count 60 purged_db.payloads)
purge_once-count_example =
    purge_once-count 60 1 1 bodies_db purged_db ((refl, (refl, tt)), ((refl, tt), (tt, tt)))
      oldest_purged
