-- ===== src/Guard/Owner.antt =====
-- process-guard.ts, the owner record and the text that stands for it.
pub mod RoundTrip
use Prim.Native.Char.{code}
use dsh_subagent_admission.Prelude.{
  ℕ, ◌+◌, ◌≤◌, ◌<◌, ◌≡◌, String, Option, none, some, Bool, true, false, [], ◌∷◌, ◌&&◌, ◌||◌, nat_eq,
  if◌then◌else◌, Number, natural, is_safe_nonnegative, is_safe_positive, max_safe_integer, Dict,
  lookup, size, arith,
}
use dsh_subagent_admission.Compatibility.{between}

pub record OwnerRecord : Type 0 where
  pub pid : ℕ
  pub nonce : String
  pub created_at : ℕ

-- What `JSON.parse` makes of a text, as far as the code looks at it: an object's fields, or another
-- value.
pub data JsonField : Type 0 where
  number : Number → JsonField
  string : String → JsonField
  other_field : JsonField

pub data Json : Type 0 where
  object : Dict JsonField → Json
  other_json : Json

-- `[0-9a-f]`, without case.
abbrev pub is_hex_digit : ℕ → Bool
is_hex_digit n = between 48 57 n || between 97 102 n || between 65 70 n

abbrev pub is_dash_place : ℕ → Bool
is_dash_place i = nat_eq i 8 || nat_eq i 13 || nat_eq i 18 || nat_eq i 23

-- The rest of a nonce, from the place `i` on.
unfoldable pub is_nonce_from : ℕ → String → Bool
is_nonce_from i String.[] = nat_eq i 36
is_nonce_from i (String.◌∷◌ c s) =
    (if is_dash_place i then nat_eq (code c) 45 else is_hex_digit (code c))
    && is_nonce_from (i + 1) s

-- `OWNER_NONCE_PATTERN.test`.
unfoldable pub is_nonce : String → Bool
unfolding is_nonce_from
is_nonce s = is_nonce_from 0 s

abbrev pub is_version : Option JsonField → Bool
is_version (some (number (natural n))) = nat_eq n 1
is_version other_value = false

abbrev pub pid_of : Option JsonField → Option ℕ
pid_of (some (number (natural n))) = if is_safe_positive (natural n) then some n else none
pid_of other_value = none

abbrev pub nonce_of : Option JsonField → Option String
nonce_of (some (string s)) = if is_nonce s then some s else none
nonce_of other_value = none

abbrev pub created_of : Option JsonField → Option ℕ
created_of (some (number (natural n))) = if is_safe_nonnegative (natural n) then some n else none
created_of other_value = none

abbrev pub make_record : Option ℕ → Option String → Option ℕ → Option OwnerRecord
make_record (some pid) (some id) (some created) =
    some (record { pid = pid; nonce = id; created_at = created })
make_record pid id created = none

abbrev pub owner_of_fields : Dict JsonField → Option OwnerRecord
owner_of_fields fields =
    if nat_eq (size fields) 4 && is_version (lookup "schemaVersion" fields)
    then make_record (pid_of (lookup "pid" fields)) (nonce_of (lookup "nonce" fields))
        (created_of (lookup "createdAt" fields))
    else none

abbrev pub owner_of_json : Option Json → Option OwnerRecord
owner_of_json none = none
owner_of_json (some other_json) = none
owner_of_json (some (object fields)) = owner_of_fields fields

-- `parseOwner`; `parse_json` is `JSON.parse`, with `none` where it throws.
unfoldable pub parse_owner : (String → Option Json) → String → Option OwnerRecord
unfolding is_nonce
parse_owner parse_json text = owner_of_json (parse_json text)

-- The fields of the object that `publishOwner` writes.
abbrev pub owner_fields : OwnerRecord → Dict JsonField
owner_fields record_written =
    ("schemaVersion", number (natural 1))
    ∷ ("pid", number (natural record_written.pid))
    ∷ ("nonce", string record_written.nonce)
    ∷ ("createdAt", number (natural record_written.created_at))
    ∷ []
