-- ===== src/Leases/Named.antt =====
-- runtime/leases.py: the names of the files over any calls of the store.
use ledgermind_local.Prelude.{
  ℕ, ◌≡◌, ap, Option, none, some, List, [], ◌∷◌, String, All, All-append, inl, inr, Option-cases,
  if-both, ◌||◌,
}
use ledgermind_local.Prelude.Text.{strip, is_empty}
use ledgermind_local.Prelude.Tables.{find, select}
use ledgermind_local.Leases.{
  Lease, LeaseFile, LeaseResult, is_file, unlink, write, read, content_of, reap_expired, active,
  is_of, is_over, canonical, acquire_among, acquire, effective_ttl, heartbeat, release,
}
use ledgermind_local.Leases.Held.{IsNamed, All-reap, All-unlink, All-release_others}

-- One call of the store.
pub data Call : Type 0 where
  acquire_call :
      (store_ttl now reaped_at new_id : ℕ) (client session : String) (ttl : Option ℕ) → Call
  heartbeat_call : Option ℕ → (now : ℕ) → Call
  release_call : Option ℕ → Call
  active_call : (now : ℕ) → Call

unfoldable pub apply_call : Call → List LeaseFile → List LeaseFile
apply_call (acquire_call store_ttl now reaped_at new_id client session ttl) files =
    (acquire store_ttl now reaped_at new_id client session ttl files).1
apply_call (heartbeat_call k now) files = (heartbeat k now files).1
apply_call (release_call k) files = (release k files).1
apply_call (active_call now) files = (active now files).1

unfoldable pub apply_calls : List Call → List LeaseFile → List LeaseFile
apply_calls [] files = files
apply_calls (c ∷ cs) files = apply_calls cs (apply_call c files)

abbrev AreNamed : List LeaseFile → Type 0
AreNamed files = All IsNamed files

write-IsNamed : (l : Lease) (files : List LeaseFile) → AreNamed files → AreNamed (write l files)
unfolding write
write-IsNamed l files h =
    All-append IsNamed (unlink l.lease_id files) _ (All-unlink IsNamed l.lease_id files h)
      (λ m e. let q : l ≡ m = cc e in ap (λ x. x.lease_id) q, tt)

read-IsNamed : (k : ℕ) (files : List LeaseFile) → AreNamed files → AreNamed (read k files).1
unfolding read
read-IsNamed k files h = elim (Option-cases (content_of (find (is_file k) files))) [
  | inl e ↦ rw (e, read) (All-unlink IsNamed k files h)
  | inr (l, e) ↦ rw (e, read) h
]

active-IsNamed : (now : ℕ) (files : List LeaseFile) → AreNamed files → AreNamed (active now files).1
unfolding active reap_expired
active-IsNamed now files h = All-reap IsNamed now files h

acquire_among-IsNamed :
    (now ttl new_id : ℕ) (client session : String) (found : List Lease) (files : List LeaseFile)
    → AreNamed files
    → AreNamed (acquire_among now ttl new_id client session found files).1
unfolding acquire_among
acquire_among-IsNamed now ttl new_id client session [] files h = write-IsNamed _ files h
acquire_among-IsNamed now ttl new_id client session (m ∷ ms) files h =
    write-IsNamed _ _ (All-release_others IsNamed (canonical m ms).lease_id (m ∷ ms) files h)

acquire-IsNamed :
    (store_ttl now reaped_at new_id : ℕ) (client session : String) (ttl : Option ℕ)
    (files : List LeaseFile)
    → AreNamed files
    → AreNamed (acquire store_ttl now reaped_at new_id client session ttl files).1
unfolding acquire
acquire-IsNamed store_ttl now reaped_at new_id client session ttl files h =
    if-both (λ (y : LeaseResult Lease × List LeaseFile). AreNamed y.1)
      (is_empty (strip client) || is_empty (strip session)) h
      (acquire_among-IsNamed now (effective_ttl store_ttl ttl) new_id (strip client) (strip session)
        (select (is_of (strip client) (strip session)) (active reaped_at files).0)
        (active reaped_at files).1 (active-IsNamed reaped_at files h))

heartbeat-IsNamed :
    (k : Option ℕ) (now : ℕ) (files : List LeaseFile)
    → AreNamed files
    → AreNamed (heartbeat k now files).1
unfolding heartbeat
heartbeat-IsNamed none now files h = h
heartbeat-IsNamed (some k) now files h = elim (Option-cases (read k files).0) [
  | inl e ↦ rw (e, heartbeat) (read-IsNamed k files h)
  | inr (l, e) ↦
      rw (e, heartbeat)
        (if-both (λ (y : LeaseResult Lease × List LeaseFile). AreNamed y.1) (is_over now l)
          (All-unlink IsNamed k _ (read-IsNamed k files h))
          (write-IsNamed _ _ (read-IsNamed k files h)))
]

release-IsNamed :
    (k : Option ℕ) (files : List LeaseFile) → AreNamed files → AreNamed (release k files).1
unfolding release
release-IsNamed none files h = h
release-IsNamed (some k) files h = All-unlink IsNamed k files h

apply_call-IsNamed :
    (c : Call) (files : List LeaseFile) → AreNamed files → AreNamed (apply_call c files)
unfolding apply_call
apply_call-IsNamed (acquire_call a b c d client session ttl) files h =
    acquire-IsNamed a b c d client session ttl files h
apply_call-IsNamed (heartbeat_call k now) files h = heartbeat-IsNamed k now files h
apply_call-IsNamed (release_call k) files h = release-IsNamed k files h
apply_call-IsNamed (active_call now) files h = active-IsNamed now files h

-- Where every file has the name of its lease, so it has after any calls of the store, those that raise
-- included.
pub apply_calls-IsNamed :
    (cs : List Call) (files : List LeaseFile)
    → All IsNamed files
    → All IsNamed (apply_calls cs files)
unfolding apply_calls
apply_calls-IsNamed [] files h = h
apply_calls-IsNamed (c ∷ cs) files h =
    apply_calls-IsNamed cs (apply_call c files) (apply_call-IsNamed c files h)
