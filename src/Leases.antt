-- ===== src/Leases.antt =====
-- runtime/leases.py: the leases that keep the runtime alive, one file for each, and runtime/shutdown.py.
-- A store is the list of the files lease-*.json of its directory, each named by its uuid4 as a number;
-- times are milliseconds. A caller's id that `_path` refuses is `none`.
pub mod Held
pub mod Named
use ledgermind_local.Prelude.{
  ℕ, ◌+◌, max, Bool, true, false, not, ◌&&◌, ◌||◌, Option, none, some, List, [], ◌∷◌, ◌++◌, String,
  ltb, leb, ◌==◌, if◌then◌else◌, text_eq,
}
use ledgermind_local.Prelude.Text.{strip, is_empty}
use ledgermind_local.Prelude.Tables.{any, find, select, order_by}

pub record Lease : Type 0 where
  pub lease_id : ℕ
  pub client : String
  pub session_id : String
  pub created_at : ℕ
  pub expires_at : ℕ
  pub ttl_seconds : ℕ

-- `content` is `none` where `_read` cannot make a lease of the file.
pub record LeaseFile : Type 0 where
  pub name : ℕ
  pub content : Option Lease

pub data LeaseResult (A : Type 0) : Type 0 where
  done : A → LeaseResult A
  value_error key_error : LeaseResult A

-- `__init__`, in milliseconds: what the store keeps is its `ttl_seconds`.
unfoldable pub new_lease_store : ℕ → ℕ
new_lease_store ttl = max ttl 100

abbrev pub is_file : ℕ → LeaseFile → Bool
is_file k f = f.name == k

-- path.unlink(missing_ok=True)
abbrev pub unlink : ℕ → List LeaseFile → List LeaseFile
unlink k files = select (λ f. not (is_file k f)) files

-- `_write`
unfoldable pub write : Lease → List LeaseFile → List LeaseFile
write l files = unlink l.lease_id files ++ (record { name = l.lease_id; content = some l }) ∷ []

abbrev content_of : Option LeaseFile → Option Lease
content_of none = none
content_of (some f) = f.content

-- `_read`, which removes what it cannot read.
unfoldable pub read : ℕ → List LeaseFile → Option Lease × List LeaseFile
read k files = elim (content_of (find (is_file k) files)) [
  | none ↦ (none, unlink k files)
  | some l ↦ (some l, files)
]

abbrev pub is_over : ℕ → Lease → Bool
is_over now l = leb l.expires_at now

-- The loop of `reap_expired`: the expired ids, and the files that stay.
unfoldable pub reap : (now : ℕ) → List LeaseFile → List ℕ × List LeaseFile
reap now [] = ([], [])
reap now (f ∷ fs) =
    let (expired, rest) = reap now fs in
    elim f.content [
      | none ↦ (expired, rest)
      | some l ↦ if is_over now l then (l.lease_id ∷ expired, rest) else (expired, f ∷ rest)
    ]

unfoldable pub reap_expired : (now : ℕ) → List LeaseFile → List ℕ × List LeaseFile
unfolding reap
reap_expired now files = let (expired, rest) = reap now files in (order_by ltb expired, rest)

abbrev pub id_before : Lease → Lease → Bool
id_before a b = ltb a.lease_id b.lease_id

-- The readable leases.
unfoldable pub read_all : List LeaseFile → List Lease
read_all [] = []
read_all (f ∷ fs) = let rest = read_all fs in elim f.content [ none ↦ rest | some l ↦ l ∷ rest ]

-- `active`; after the reaping every file that stays can be read.
unfoldable pub active : (now : ℕ) → List LeaseFile → List Lease × List LeaseFile
unfolding reap_expired read_all
active now files =
    let rest = (reap_expired now files).1 in (order_by id_before (read_all rest), rest)

unfoldable pub release : Option ℕ → List LeaseFile → LeaseResult Bool × List LeaseFile
release none files = (value_error, files)
release (some k) files = (done (any (is_file k) files), unlink k files)

abbrev pub is_of : String → String → Lease → Bool
is_of client session l = text_eq l.client client && text_eq l.session_id session

-- min(matching, key=lambda item: (item.created_at, item.lease_id))
abbrev pub older : Lease → Lease → Bool
older a b =
    ltb a.created_at b.created_at || ((a.created_at == b.created_at) && ltb a.lease_id b.lease_id)

unfoldable pub canonical : Lease → List Lease → Lease
canonical l [] = l
canonical l (x ∷ xs) = canonical (if older x l then x else l) xs

-- The loop over the duplicates.
unfoldable pub release_others : (keep : ℕ) → List Lease → List LeaseFile → List LeaseFile
release_others keep [] files = files
release_others keep (d ∷ ds) files =
    release_others keep ds (if d.lease_id == keep then files else unlink d.lease_id files)

abbrev pub effective_ttl : ℕ → Option ℕ → ℕ
effective_ttl store_ttl none = store_ttl
effective_ttl store_ttl (some ttl) = max ttl store_ttl

unfoldable pub refresh : (now ttl : ℕ) → Lease → Lease
refresh now ttl l = record l { expires_at = now + ttl; ttl_seconds = ttl }

-- What follows the search for the leases of the same session; `files` are those that are active.
unfoldable pub acquire_among :
    (now ttl new_id : ℕ)
    → (client session : String) → List Lease
    → List LeaseFile
    → Lease × List LeaseFile
unfolding canonical release_others write refresh
acquire_among now ttl new_id client session [] files =
    let l : Lease = record {
      lease_id = new_id;
      client = client;
      session_id = session;
      created_at = now;
      expires_at = now + ttl;
      ttl_seconds = ttl;
    } in
    (l, write l files)
acquire_among now ttl new_id client session (m ∷ ms) files =
    let c = canonical m ms in
    let l = refresh now (max ttl c.ttl_seconds) c in
    (l, write l (release_others c.lease_id (m ∷ ms) files))

abbrev acquired : Lease × List LeaseFile → LeaseResult Lease × List LeaseFile
acquired (l, files) = (done l, files)

unfoldable pub acquire :
    (store_ttl now reaped_at new_id : ℕ)
    → (client session : String) → (ttl : Option ℕ) → List LeaseFile
    → LeaseResult Lease × List LeaseFile
unfolding active acquire_among
acquire store_ttl now reaped_at new_id client session ttl files =
    let client' = strip client in
    let session' = strip session in
    let (leases, live) = active reaped_at files in
    if is_empty client' || is_empty session'
    then (value_error, files)
    else acquired (
        acquire_among now (effective_ttl store_ttl ttl) new_id client' session'
          (select (is_of client' session') leases) live)

unfoldable pub heartbeat :
    Option ℕ → (now : ℕ) → List LeaseFile → LeaseResult Lease × List LeaseFile
unfolding read write refresh
heartbeat none now files = (value_error, files)
heartbeat (some k) now files =
    let (found, files') = read k files in
    elim found [
      | none ↦ (key_error, files')
      | some l ↦
          let l' = refresh now l.ttl_seconds l in
          if is_over now l then (key_error, unlink k files') else (done l', write l' files')
    ]

-- runtime/shutdown.py: now - last_release_at >= grace
unfoldable pub should_shutdown :
    (active_leases leased_tasks pending_writes : ℕ)
    → (last_release_at : Option ℕ) → (grace now : ℕ) → Bool
should_shutdown leases tasks writes none grace now = false
should_shutdown leases tasks writes (some t) grace now =
    if (leases == 0) && (tasks == 0) && (writes == 0) then leb (t + grace) now else false
