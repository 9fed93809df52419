-- ===== src/Leases/Held.antt =====
-- runtime/leases.py: what the store holds after an acquisition.
use ledgermind_local.Prelude.{
  ℕ, ◌+◌, ◌≤◌, max, ◌≡◌, refl, sym, ap, subst, ◌||◌, true, false, not, Option, none, some, List, [],
  ◌∷◌, ◌++◌, String, arith, All, All-map, All-pure, All-both, All-append, ◌==◌, if◌then◌else◌,
  if-both, inl, inr, Bool-cases, Option-cases,
}
use ledgermind_local.Prelude.Tables.{
  select, order_by, Elem, here, there, All-Elem, Elem-All, All-select, All-select_inv,
  All-select_test, All-order_by_inv,
}
use ledgermind_local.Prelude.Text.{strip, is_empty}
use ledgermind_local.Leases.{
  Lease, LeaseFile, done, is_file, unlink, write, reap, reap_expired, id_before, read_all, active,
  is_of, canonical, release_others, refresh, acquire_among, acquired, acquire, effective_ttl,
  is_over,
}

-- Every file has the name of its lease.
abbrev pub IsNamed : LeaseFile → Type 0
IsNamed f = (l : Lease) → f.content ≡ some l → f.name ≡ l.lease_id

-- A lease of the session in this file is the lease `k`.
abbrev pub IsOnly : (client session : String) → ℕ → LeaseFile → Type 0
IsOnly client session k f =
    (l : Lease) → f.content ≡ some l → is_of client session l ≡ true → l.lease_id ≡ k

All-read_all_inv :
    (P : Lease → Type 0) (files : List LeaseFile)
    → All P (read_all files)
    → All (λ f. (l : Lease) → f.content ≡ some l → P l) files
unfolding read_all
All-read_all_inv P [] h = tt
All-read_all_inv P (f ∷ fs) h = go f.content refl h (All-read_all_inv P fs)
  where
    go :
        (c : Option Lease)
        → f.content ≡ c
        → All P (elim c [ none ↦ read_all fs | some l ↦ l ∷ read_all fs ])
        → (All P (read_all fs) → All (λ f. (l : Lease) → f.content ≡ some l → P l) fs)
        → All (λ f. (l : Lease) → f.content ≡ some l → P l) (f ∷ fs)
    go none e h rest = (λ l k. absurd (cc (e, k)), rest h)
    go (some m) e h rest = (λ l k. let q : m ≡ l = cc (e, k) in rw (← q) h.0, rest h.1)

pub All-unlink :
    (P : LeaseFile → Type 0) (k : ℕ) (files : List LeaseFile) → All P files → All P (unlink k files)
All-unlink P k files h = All-select P _ files h

pub All-release_others :
    (P : LeaseFile → Type 0) (keep : ℕ) (ds : List Lease) (files : List LeaseFile)
    → All P files
    → All P (release_others keep ds files)
unfolding release_others
All-release_others P keep [] files h = h
All-release_others P keep (d ∷ ds) files h =
    All-release_others P keep ds _
      (if-both (λ xs. All P xs) (d.lease_id == keep) h (All-unlink P d.lease_id files h))

-- No file of a released duplicate is left.
abbrev IsReleased : ℕ → LeaseFile → Lease → Type 0
IsReleased keep f d = (d.lease_id == keep) ≡ false → is_file d.lease_id f ≡ false

unlinked :
    (keep : ℕ) (d : Lease) (files : List LeaseFile)
    → All (λ f. IsReleased keep f d) (if d.lease_id == keep then files else unlink d.lease_id files)
unlinked keep d files = elim (Bool-cases (d.lease_id == keep)) [
  | inl kept ↦ rw kept (All-pure (λ f other. absurd (cc other)) files)
  | inr other ↦ rw other (
      All-map (λ f gone _. ground (arith, gone)) (unlink d.lease_id files)
        (All-select_test (λ f. not (is_file d.lease_id f)) files))
]

released :
    (keep : ℕ) (ds : List Lease) (files : List LeaseFile)
    → All (λ f. All (λ d. IsReleased keep f d) ds) (release_others keep ds files)
unfolding release_others
released keep [] files = All-pure (λ f. tt) files
released keep (d ∷ ds) files =
    let rest = if d.lease_id == keep then files else unlink d.lease_id files in
    All-both (λ f h k. (h, k)) (release_others keep ds rest)
      (All-release_others (λ f. IsReleased keep f d) keep ds rest (unlinked keep d files))
      (released keep ds rest)

-- Every lease of the session that a file holds is among those that were found.
abbrev AreFound : (client session : String) → List Lease → LeaseFile → Type 0
AreFound client session found f =
    (l : Lease) → f.content ≡ some l → is_of client session l ≡ true → Elem l found

found-All :
    (client session : String) (now : ℕ) (files : List LeaseFile)
    → let (leases, live) = active now files in
      All (AreFound client session (select (is_of client session) leases)) live
unfolding active
found-All client session now files =
    let live = (reap_expired now files).1 in
    let leases = order_by id_before (read_all live) in
    let mine = select (is_of client session) leases in
    All-map (λ f h l. h l) live
      (All-read_all_inv (λ l. is_of client session l ≡ true → Elem l mine) live
        (All-order_by_inv _ id_before (read_all live)
          (All-select_inv (λ l. Elem l mine) (is_of client session) leases (All-Elem mine))))

pub All-reap :
    (P : LeaseFile → Type 0) (now : ℕ) (files : List LeaseFile)
    → All P files
    → All P (reap now files).1
unfolding reap
All-reap P now [] h = h
All-reap P now (f ∷ fs) h = elim (Option-cases f.content) [
  | inl e ↦ rw (e, reap) (All-reap P now fs h.1)
  | inr (l, e) ↦ elim (Bool-cases (is_over now l)) [
    | inl over ↦ rw (e, reap) (rw over (All-reap P now fs h.1))
    | inr still ↦ rw (e, reap) (rw still (h.0, All-reap P now fs h.1))
  ]
]

-- The lease that is kept is one of the session's, and so is what it is refreshed to.
others-IsOnly :
    (client session : String) (keep : ℕ) (found : List Lease) (files : List LeaseFile)
    → All IsNamed files
    → All (AreFound client session found) files
    → All (IsOnly client session keep) (release_others keep found files)
others-IsOnly client session keep found files named complete =
    All-both {P = λ f. IsNamed f × AreFound client session found f}
      {Q = λ f. All (λ d. IsReleased keep f d) found}
      (λ f both gone l e mine. go f l e (both.0 l e) (gone_one f found gone l (both.1 l e mine)))
      (release_others keep found files)
      (All-release_others (λ f. IsNamed f × AreFound client session found f) keep found files
        (All-both (λ f h k. (h, k)) files named complete))
      (released keep found files)
  where
    gone_one :
        (f : LeaseFile) (ds : List Lease)
        → All (λ d. IsReleased keep f d) ds
        → (l : Lease) → Elem l ds
        → IsReleased keep f l
    gone_one f ds h l e = Elem-All (λ d. IsReleased keep f d) l e h

    go :
        (f : LeaseFile) (l : Lease)
        → f.content ≡ some l
        → f.name ≡ l.lease_id
        → IsReleased keep f l
        → l.lease_id ≡ keep
    go f l e n gone = elim (Bool-cases (l.lease_id == keep)) [
      | inl same ↦ ground (arith, same)
      | inr other ↦ absurd (let x = gone other in ground arith)
    ]

Elem-last : {A : Type 0} (x : A) (xs : List A) → Elem x (xs ++ x ∷ [])
Elem-last x [] = here refl
Elem-last x (y ∷ ys) = there (Elem-last x ys)

-- The store holds the lease, and no other lease of the session.
pub record IsHeld (client session : String) (l : Lease) (files : List LeaseFile) : Type 0 where
  pub only : All (IsOnly client session l.lease_id) files
  pub kept : Elem (record { name = l.lease_id; content = some l }) files

write-IsHeld :
    (client session : String) (l : Lease) (files : List LeaseFile)
    → All (IsOnly client session l.lease_id) files
    → IsHeld client session l (write l files)
unfolding write
write-IsHeld client session l files h = record {
  only =
      All-append (IsOnly client session l.lease_id) (unlink l.lease_id files) _
        (All-unlink (IsOnly client session l.lease_id) l.lease_id files h)
        (λ m e mine. let q : l ≡ m = cc e in ap (λ x. x.lease_id) (sym q), tt);
  kept = Elem-last _ (unlink l.lease_id files);
}

acquire_among-IsHeld :
    (now ttl new_id : ℕ) (client session : String) (found : List Lease) (files : List LeaseFile)
    → All IsNamed files
    → All (AreFound client session found) files
    → let (l, files') = acquire_among now ttl new_id client session found files in
      IsHeld client session l files' × (now + ttl ≤ l.expires_at)
unfolding acquire_among
acquire_among-IsHeld now ttl new_id client session [] files named complete = (
  write-IsHeld client session _ files
      (unfold release_others in others-IsOnly client session new_id [] files named complete),
  omega arith,
)
acquire_among-IsHeld now ttl new_id client session (m ∷ ms) files named complete =
    unfold refresh in
    let c = canonical m ms in
    (
      write-IsHeld client session (refresh now (max ttl c.ttl_seconds) c) _
          (others-IsOnly client session c.lease_id (m ∷ ms) files named complete),
      omega arith,
    )

acquired-inv :
    (x : Lease × List LeaseFile) (l : Lease) (files : List LeaseFile)
    → acquired x ≡ (done l, files)
    → x ≡ (l, files)
acquired-inv (m, kept) l files e =
    let p : m ≡ l = cc (ap (λ y. y.0) e) in
    let q : kept ≡ files = ap (λ y. y.1) e in λ i. (p i, q i)

acquire-inv :
    (store_ttl now reaped_at new_id : ℕ) (client session : String) (ttl : Option ℕ)
    (files : List LeaseFile) (l : Lease) (files' : List LeaseFile)
    → acquire store_ttl now reaped_at new_id client session ttl files ≡ (done l, files')
    → let (leases, live) = active reaped_at files in
      acquire_among now
        (effective_ttl store_ttl ttl)
        new_id
        (strip client)
        (strip session)
        (select (is_of (strip client) (strip session)) leases)
        live
      ≡ (l, files')
unfolding acquire
acquire-inv store_ttl now reaped_at new_id client session ttl files l files' e =
    elim (Bool-cases (is_empty (strip client) || is_empty (strip session))) [
      | inl blank ↦ absurd (cc (ap (λ y. y.0) (rw (blank, acquire) at e)))
      | inr named ↦ acquired-inv _ l files' (rw (named, acquire) at e)
    ]

-- Where every file has the name of its lease: after an acquisition that returns a lease, the store
-- holds it and no other lease of that client's session, and it lasts for at least the time to live.
pub acquire-IsHeld :
    (store_ttl now reaped_at new_id : ℕ) (client session : String) (ttl : Option ℕ)
    (files : List LeaseFile) (l : Lease) (files' : List LeaseFile)
    → All IsNamed files
    → acquire store_ttl now reaped_at new_id client session ttl files ≡ (done l, files')
    → IsHeld (strip client) (strip session) l files'
      × (now + effective_ttl store_ttl ttl ≤ l.expires_at)
acquire-IsHeld store_ttl now reaped_at new_id client session ttl files l files' named e =
    let live = (active reaped_at files).1 in
    let named_live : All IsNamed live =
      unfold active reap_expired in All-reap IsNamed reaped_at files named in
    let h =
      acquire_among-IsHeld now (effective_ttl store_ttl ttl) new_id (strip client) (strip session)
        (select (is_of (strip client) (strip session)) (active reaped_at files).0) live named_live
        (found-All (strip client) (strip session) reaped_at files) in
    subst
      (λ (y : Lease × List LeaseFile).
        IsHeld (strip client) (strip session) y.0 y.1
        × (now + effective_ttl store_ttl ttl ≤ y.0.expires_at))
      (acquire-inv store_ttl now reaped_at new_id client session ttl files l files' e) h
