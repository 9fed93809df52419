-- ===== src/Restore/Journal/Checks.antt =====
-- The values of a restore journal's JSON, and the checks of texts, of maintenance/coordinated_restore.py.
use Prim.Native.Char.{code}
use Prim.Native.String.{[] as str_nil, ◌∷◌ as ◌str_cons◌}
use ledgermind_local.Prelude.{
  ℕ, zero, suc, Bool, true, false, not, ◌&&◌, ◌||◌, Option, none, some, List, [], ◌∷◌, String, leb,
  ◌==◌, text_eq, if◌then◌else◌,
}
use ledgermind_local.Prelude.Text.{text_length, is_blank}

-- A JSON value; of a number that is no integer only whether it equals 1.
pub data Value : Type 0 where
  null : Value
  boolean : Bool → Value
  int : ℕ → Value
  negative_int compound : Value
  real : Bool → Value
  str : String → Value

abbrev pub Payload : Type 0
Payload = List (String × Value)

unfoldable pub is_in : List String → String → Bool
is_in [] s = false
is_in (x ∷ xs) s = text_eq x s || is_in xs s

-- `payload.get(name)`
unfoldable pub payload_get : String → Payload → Value
payload_get name [] = null
payload_get name ((key, v) ∷ p) =
    let rest = payload_get name p in if text_eq key name then v else rest

unfoldable pub all_in : List String → Payload → Bool
unfolding is_in
all_in allowed [] = true
all_in allowed ((key, v) ∷ p) = is_in allowed key && all_in allowed p

abbrev pub allowed_fields : List String
allowed_fields =
    "journal_version" ∷ "restore_id" ∷ "state" ∷ "backup_id" ∷ "rounds_rollback_path"
    ∷ "core_restore_token" ∷ "core_restore_transaction_id" ∷ "core_relative_path" ∷ "core_sha256"
    ∷ "core_size_bytes" ∷ "core_schema_version" ∷ "rounds_snapshot_path" ∷ "core_exchange_path"
    ∷ "staging_dir" ∷ []

-- `== 1`, which also holds of True.
abbrev pub is_version : Value → Bool
is_version (int n) = n == 1
is_version (boolean b) = b
is_version (real one) = one
is_version _ = false

unfoldable pub has_char : ℕ → String → Bool
has_char k str_nil = false
has_char k (c str_cons s) = (code c == k) || has_char k s

infixl 5 ◌>>=◌
abbrev pub ◌>>=◌ {ℓ κ} : {A : Type ℓ} {B : Type κ} → Option A → (A → Option B) → Option B
none >>= f = none
some a >>= f = f a

abbrev pub when : {A : Type 0} → Bool → A → Option A
when true a = some a
when false a = none

-- `_required_text`
abbrev pub required_text : Value → Option String
required_text (str s) = when (not (is_blank s)) s
required_text _ = none

abbrev pub is_plain : String → Bool
is_plain s =
    leb (text_length s) 256 && not (has_char 47 s) && not (has_char 92 s) && not (has_char 0 s)

-- `_safe_identifier`
unfoldable pub safe_identifier : Value → Option String
unfolding text_length has_char is_blank
safe_identifier v = do s ← required_text v; when (is_plain s) s

unfoldable pub optional_identifier : Value → Option (Option String)
unfolding safe_identifier
optional_identifier null = some none
optional_identifier v = do s ← safe_identifier v; some (some s)

abbrev pub natural : Value → Option ℕ
natural (int n) = some n
natural _ = none

abbrev pub positive : Value → Option ℕ
positive (int zero) = none
positive (int (suc n)) = some (suc n)
positive _ = none

abbrev pub is_dots : String → Bool
is_dots s = text_eq s "" || text_eq s "." || text_eq s ".."

unfoldable pub has_dots : List String → Bool
has_dots [] = false
has_dots (x ∷ xs) = is_dots x || has_dots xs

-- At least three parts, the first of which are these.
abbrev pub is_incoming : List String → Bool
is_incoming (a ∷ b ∷ c ∷ xs) = text_eq a "exchange" && text_eq b "incoming"
is_incoming _ = false

abbrev pub optional_text : Option String → Value
optional_text none = null
optional_text (some s) = str s
