-- ===== src/Restore/Journal/Kept.antt =====
-- A restore journal that is read is safe, and written and read again it is the same.
use ledgermind_local.Prelude.{
  ℕ, zero, suc, ◌≤◌, Bool, true, false, not, ◌&&◌, Option, none, some, String, ◌≡◌, refl, text_eq,
  arith, subst, if-both,
}
use ledgermind_local.Prelude.Text.{text_length, is_blank}
use ledgermind_local.Restore.Journal.{
  Paths, JournalRecord, is_exchange_path, safe_exchange_path, journal_path, to_payload, read_fields,
  from_payload, validate_journal_paths, read_journal_payload,
}
use ledgermind_local.Restore.Journal.Checks.{
  Value, null, boolean, int, negative_int, compound, real, str, Payload, is_in, payload_get, all_in,
  allowed_fields, is_version, has_char, ◌>>=◌, when, required_text, is_plain, safe_identifier,
  optional_identifier, natural, positive, optional_text,
}

abbrev pub IsText : String → Type 0
IsText s = is_blank s ≡ false

-- Not blank, at most 256 characters, no slash, backslash or NUL.
abbrev pub IsIdentifier : String → Type 0
IsIdentifier s =
    IsText s
    × (text_length s ≤ 256)
    × (has_char 47 s ≡ false)
    × (has_char 92 s ≡ false)
    × (has_char 0 s ≡ false)

abbrev pub IsOptionalIdentifier : Option String → Type 0
IsOptionalIdentifier none = Unit {0}
IsOptionalIdentifier (some s) = IsIdentifier s

>>=-eq-some {ℓ κ} :
    {A : Type ℓ} {B : Type κ} {b : B} (o : Option A) (f : A → Option B)
    → o >>= f ≡ some b
    → (a : A) × (f a ≡ some b) × (o ≡ some a)
>>=-eq-some (some a) f h = (a, h, refl)
>>=-eq-some none f h = absurd (cc h)

when-eq-some : {A : Type 0} (b : Bool) (a c : A) → when b a ≡ some c → (b ≡ true) × (a ≡ c)
when-eq-some true a c h = (refl, cc h)
when-eq-some false a c h = absurd (cc h)

required_text-IsText : (v : Value) (s : String) → required_text v ≡ some s → IsText s
required_text-IsText (str t) s h =
    let (b, e) = when-eq-some (not (is_blank t)) t s h in rw (← e) (ground (arith, b))
required_text-IsText null s h = absurd (cc h)
required_text-IsText (boolean b) s h = absurd (cc h)
required_text-IsText (int n) s h = absurd (cc h)
required_text-IsText negative_int s h = absurd (cc h)
required_text-IsText compound s h = absurd (cc h)
required_text-IsText (real b) s h = absurd (cc h)

required_text_lem : (s : String) → IsText s → required_text (str s) ≡ some s
required_text_lem s h = rw h refl

safe_identifier-IsIdentifier :
    (v : Value) (s : String) → safe_identifier v ≡ some s → IsIdentifier s
unfolding safe_identifier
safe_identifier-IsIdentifier v s h =
    let (t, k, e) = >>=-eq-some (required_text v) (λ t. when (is_plain t) t) h in
    let (plain, same) = when-eq-some (is_plain t) t s k in
    let is_text = required_text-IsText v t e in
    rw (← same) (
      is_text,
      ground (arith, plain),
      ground (arith, plain),
      ground (arith, plain),
      ground (arith, plain),
    )

safe_identifier_lem : (s : String) → IsIdentifier s → safe_identifier (str s) ≡ some s
unfolding safe_identifier
safe_identifier_lem s (t, l, a, b, c) =
    let plain : is_plain s ≡ true = ground (arith, l, a, b, c) in rw (t, plain) refl

some_identifier :
    (v : Value) (o : Option String)
    → (safe_identifier v >>= λ s. some (some s)) ≡ some o
    → IsOptionalIdentifier o
some_identifier v o h =
    let (s, k, e) = >>=-eq-some (safe_identifier v) (λ s. some (some s)) h in
    let same : some s ≡ o = cc k in rw (← same) (safe_identifier-IsIdentifier v s e)

none_identifier : (o : Option String) → some none ≡ some o → IsOptionalIdentifier o
none_identifier none h = tt
none_identifier (some s) h = absurd (cc h)

optional_identifier-IsOptionalIdentifier :
    (v : Value) (o : Option String) → optional_identifier v ≡ some o → IsOptionalIdentifier o
unfolding optional_identifier
optional_identifier-IsOptionalIdentifier null o h = none_identifier o h
optional_identifier-IsOptionalIdentifier (str t) o h = some_identifier (str t) o h
optional_identifier-IsOptionalIdentifier (boolean b) o h = some_identifier (boolean b) o h
optional_identifier-IsOptionalIdentifier (int n) o h = some_identifier (int n) o h
optional_identifier-IsOptionalIdentifier negative_int o h = some_identifier negative_int o h
optional_identifier-IsOptionalIdentifier compound o h = some_identifier compound o h
optional_identifier-IsOptionalIdentifier (real b) o h = some_identifier (real b) o h

optional_text_lem :
    (o : Option String) → IsOptionalIdentifier o → optional_identifier (optional_text o) ≡ some o
unfolding optional_identifier
optional_text_lem none h = refl
optional_text_lem (some s) h = rw (safe_identifier_lem s h) refl

positive-eq-some : (v : Value) (n : ℕ) → positive v ≡ some n → 1 ≤ n
positive-eq-some (int zero) n h = absurd (cc h)
positive-eq-some (int (suc m)) n h = let same : suc m ≡ n = cc h in omega (arith, same)
positive-eq-some null n h = absurd (cc h)
positive-eq-some (boolean b) n h = absurd (cc h)
positive-eq-some negative_int n h = absurd (cc h)
positive-eq-some compound n h = absurd (cc h)
positive-eq-some (real b) n h = absurd (cc h)
positive-eq-some (str s) n h = absurd (cc h)

positive_lem : (n : ℕ) → 1 ≤ n → positive (int n) ≡ some n
positive_lem zero h = absurd (omega (arith, h))
positive_lem (suc n) h = refl

-- What the documentation of pathlib says of an absolute path: its text is not blank, and read again it is the
-- same path, which `expanduser` leaves as it is.
pub record IsLawful (P : Paths) : Type 0 where
  pub show-IsText : (p : P.PurePath) → P.is_absolute p ≡ true → IsText (P.show p)
  pub expanduser-parse-show :
      (p : P.PurePath) → P.is_absolute p ≡ true → P.expanduser (P.parse (P.show p)) ≡ p

module _ (P : Paths) where
  -- The identifiers are identifiers, the texts are not blank, the exchange path stays below
  -- exchange/incoming, the schema version is positive and the paths are absolute.
  pub record IsSafe (j : JournalRecord P) : Type 0 where
    pub restore_id : IsIdentifier j.restore_id
    pub state : IsText j.state
    pub backup_id : IsIdentifier j.backup_id
    pub token : IsIdentifier j.core_restore_token
    pub transaction_id : IsOptionalIdentifier j.core_restore_transaction_id
    pub relative : IsText j.core_relative_path × (is_exchange_path P j.core_relative_path ≡ true)
    pub sha256 : IsText j.core_sha256
    pub schema : 1 ≤ j.core_schema_version
    pub rollback : P.is_absolute j.rounds_rollback_path ≡ true
    pub snapshot : P.is_absolute j.rounds_snapshot_path ≡ true
    pub exchange : P.is_absolute j.core_exchange_path ≡ true
    pub staging : P.is_absolute j.staging_dir ≡ true

  safe_exchange_path-eq-some :
      (v : Value) (s : String)
      → safe_exchange_path P v ≡ some s
      → IsText s × (is_exchange_path P s ≡ true)
  unfolding safe_exchange_path
  safe_exchange_path-eq-some v s h =
      let (t, k, e) = >>=-eq-some (required_text v) (λ t. when (is_exchange_path P t) t) h in
      let (inside, same) = when-eq-some (is_exchange_path P t) t s k in
      rw (← same) (required_text-IsText v t e, inside)

  safe_exchange_path_lem :
      (s : String) → IsText s → is_exchange_path P s ≡ true → safe_exchange_path P (str s) ≡ some s
  unfolding safe_exchange_path
  safe_exchange_path_lem s t e = rw (t, e) refl

  journal_path-eq-some :
      (v : Value) (p : P.PurePath) → journal_path P v ≡ some p → P.is_absolute p ≡ true
  unfolding journal_path
  journal_path-eq-some v p h =
      let path : String → P.PurePath = λ t. P.expanduser (P.parse t) in
      let (t, k, e) =
        >>=-eq-some (required_text v) (λ t. when (P.is_absolute (path t)) (path t)) h in
      let (absolute, same) = when-eq-some (P.is_absolute (path t)) (path t) p k in
      rw (← same) absolute

  journal_path_lem :
      IsLawful P
      → (p : P.PurePath) → P.is_absolute p ≡ true
      → journal_path P (str (P.show p)) ≡ some p
  unfolding journal_path
  journal_path_lem lawful p h =
      rw (lawful.show-IsText p h, lawful.expanduser-parse-show p h, h) refl

  abbrev Good : Option (JournalRecord P) → Type 0
  Good none = Unit {0}
  Good (some j) = IsSafe j

  step :
      {A : Type 0} (Q : A → Type 0) (o : Option A) (next : A → Option (JournalRecord P))
      → ((a : A) → o ≡ some a → Q a)
      → ((a : A) → Q a → Good (next a))
      → Good (o >>= next)
  step Q none next h k = tt
  step Q (some a) next h k = k a (h a refl)

  abbrev IsRelative : String → Type 0
  IsRelative s = IsText s × (is_exchange_path P s ≡ true)

  abbrev IsAbsolute : P.PurePath → Type 0
  IsAbsolute p = P.is_absolute p ≡ true

  read_fields-Good : (p : Payload) → Good (read_fields P p)
  unfolding read_fields
  read_fields-Good p =
      step IsIdentifier (safe_identifier (payload_get "restore_id" p)) _
        (safe_identifier-IsIdentifier (payload_get "restore_id" p))
        (λ _ restore_id_safe.
          step IsText (required_text (payload_get "state" p)) _
            (required_text-IsText (payload_get "state" p))
            (λ _ state_safe.
              step IsIdentifier (safe_identifier (payload_get "backup_id" p)) _
                (safe_identifier-IsIdentifier (payload_get "backup_id" p))
                (λ _ backup_id_safe.
                  step IsIdentifier (safe_identifier (payload_get "core_restore_token" p)) _
                    (safe_identifier-IsIdentifier (payload_get "core_restore_token" p))
                    (λ _ token_safe.
                      step IsOptionalIdentifier
                        (optional_identifier (payload_get "core_restore_transaction_id" p)) _
                        (optional_identifier-IsOptionalIdentifier
                          (payload_get "core_restore_transaction_id" p))
                        (λ _ transaction_safe.
                          step IsRelative
                            (safe_exchange_path P (payload_get "core_relative_path" p)) _
                            (safe_exchange_path-eq-some (payload_get "core_relative_path" p))
                            (λ _ relative_safe.
                              step IsText (required_text (payload_get "core_sha256" p)) _
                                (required_text-IsText (payload_get "core_sha256" p))
                                (λ _ sha256_safe.
                                  step (λ _. Unit {0}) (natural (payload_get "core_size_bytes" p)) _
                                    (λ n e. tt)
                                    (λ n _.
                                      step (λ n. 1 ≤ n)
                                        (positive (payload_get "core_schema_version" p)) _
                                        (positive-eq-some (payload_get "core_schema_version" p))
                                        (λ _ schema_safe.
                                          step IsAbsolute
                                            (journal_path P (payload_get "rounds_rollback_path" p))
                                            _
                                            (journal_path-eq-some
                                              (payload_get "rounds_rollback_path" p))
                                            (λ _ rollback_safe.
                                              step IsAbsolute
                                                (journal_path P
                                                  (payload_get "rounds_snapshot_path" p))
                                                _
                                                (journal_path-eq-some
                                                  (payload_get "rounds_snapshot_path" p))
                                                (λ _ snapshot_safe.
                                                  step IsAbsolute
                                                    (journal_path P
                                                      (payload_get "core_exchange_path" p))
                                                    _
                                                    (journal_path-eq-some
                                                      (payload_get "core_exchange_path" p))
                                                    (λ _ exchange_safe.
                                                      step IsAbsolute
                                                        (journal_path P
                                                          (payload_get "staging_dir" p))
                                                        _
                                                        (journal_path-eq-some
                                                          (payload_get "staging_dir" p))
                                                        (λ _ staging_safe. record {
                                                          restore_id = restore_id_safe;
                                                          state = state_safe;
                                                          backup_id = backup_id_safe;
                                                          token = token_safe;
                                                          transaction_id = transaction_safe;
                                                          relative = relative_safe;
                                                          sha256 = sha256_safe;
                                                          schema = schema_safe;
                                                          rollback = rollback_safe;
                                                          snapshot = snapshot_safe;
                                                          exchange = exchange_safe;
                                                          staging = staging_safe;
                                                        })))))))))))))

  from_payload-Good : (p : Payload) → Good (from_payload P p)
  unfolding from_payload
  from_payload-Good p =
      if-both Good (all_in allowed_fields p && is_version (payload_get "journal_version" p))
        (read_fields-Good p) tt

  to_payload_lem :
      IsLawful P → (j : JournalRecord P) → IsSafe j → from_payload P (to_payload P j) ≡ some j
  unfolding from_payload to_payload read_fields payload_get all_in is_in text_eq
  to_payload_lem lawful j i =
      rw
        (
          safe_identifier_lem j.restore_id i.restore_id,
          required_text_lem j.state i.state,
          safe_identifier_lem j.backup_id i.backup_id,
          safe_identifier_lem j.core_restore_token i.token,
          optional_text_lem j.core_restore_transaction_id i.transaction_id,
          safe_exchange_path_lem j.core_relative_path i.relative.0 i.relative.1,
          required_text_lem j.core_sha256 i.sha256,
          positive_lem j.core_schema_version i.schema,
          journal_path_lem lawful j.rounds_rollback_path i.rollback,
          journal_path_lem lawful j.rounds_snapshot_path i.snapshot,
          journal_path_lem lawful j.core_exchange_path i.exchange,
          journal_path_lem lawful j.staging_dir i.staging,
        )
        refl

  -- A journal that is read from a JSON object is safe: its identifiers are not blank, of at most 256
  -- characters and without a slash, a backslash or NUL; its exchange path has no dots or backslash and
  -- lies below exchange/incoming; its schema version is positive, its paths are absolute, and they pass the
  -- test of the roots and of the digest. What `to_payload` writes of it is read again as the same journal. Of
  -- pathlib this takes that the text of an absolute path is not blank and reads back as that path.
  pub read_journal_payload-to_payload :
      IsLawful P
      → (core_root rollback_root : P.PurePath) (p : Payload) (j : JournalRecord P)
      → read_journal_payload P core_root rollback_root p ≡ some j
      → IsSafe j
        × (validate_journal_paths P core_root rollback_root j ≡ true)
        × (read_journal_payload P core_root rollback_root (to_payload P j) ≡ some j)
  unfolding read_journal_payload
  read_journal_payload-to_payload lawful core_root rollback_root p j e =
      let valid : JournalRecord P → Bool = validate_journal_paths P core_root rollback_root in
      let (k, h, read) = >>=-eq-some (from_payload P p) (λ k. when (valid k) k) e in
      let (passed, same) = when-eq-some (valid k) k j h in
      let safe : IsSafe k = subst Good read (from_payload-Good p) in
      rw (← same) (safe, passed, rw (to_payload_lem lawful k safe, passed) refl)
