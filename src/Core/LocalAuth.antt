-- ===== src/Core/LocalAuth.antt =====
-- tms/core/localauth.py: local accounts. The password functions are libraries and stand in the record
-- `Passwords`; the clock is read once per call, and its time, in seconds, is an argument.
pub mod Accounts
pub mod Lockout
use trino_management_service.Prelude.{
  ℕ, ◌+◌, ◌-◌, ltb, leb, String, str_eq, is_empty, Bool, true, false, not, Option, none, some, List,
  [], ◌∷◌, ◌++◌, keep, length, Result, ok, err, if◌then◌else◌,
}
use trino_management_service.Exec.{Exec, check, ◌>>=◌, ◌>>◌}

abbrev pub max_failed_attempts : ℕ
max_failed_attempts = 5

abbrev pub lockout_seconds : ℕ
lockout_seconds = 300

pub record LocalUser : Type 0 where
  pub username : String
  pub password_hash : String
  pub roles : List String
  pub must_change_password : Bool

pub data AuthError : Type 0 where
  -- with the seconds until the account is unlocked
  account_locked : ℕ → AuthError
  invalid_credentials same_password weak_password : AuthError
  not_a_mapping plaintext_password no_hash no_roles : String → AuthError

pub record Passwords : Type 0 where
  pub verify_password : String → String → Bool
  pub hash_password : String → String
  pub is_strong : String → Bool

-- Dictionaries by user name.
pub record Authenticator : Type 0 where
  pub users : String → Option LocalUser
  pub failures : String → List ℕ

unfoldable pub new_authenticator : (String → Option LocalUser) → Authenticator
new_authenticator users = record { users = users; failures = λ u. [] }

abbrev put {ℓ} : {V : Type ℓ} → String → V → (String → V) → String → V
put k v table q = if str_eq q k then v else table q

-- `now - t < LOCKOUT_SECONDS`
abbrev pub is_recent : ℕ → ℕ → Bool
is_recent now t = ltb now (t + lockout_seconds)

unfoldable pub record_failure : ℕ → String → Authenticator → Authenticator
record_failure now username a = record a {
  failures = put username (keep (is_recent now) (a.failures username) ++ now ∷ []) a.failures;
}

-- `_is_locked`, which also drops the attempts that are over.
unfoldable pub is_locked : ℕ → String → Authenticator → Bool × Authenticator
is_locked now username a =
    let attempts = keep (is_recent now) (a.failures username) in
    (
      leb max_failed_attempts (length attempts),
      record a { failures = put username attempts a.failures },
    )

unfoldable pub seconds_until_unlock : ℕ → String → Authenticator → ℕ
seconds_until_unlock now username a = elim (a.failures username) [
  | [] ↦ 0
  | t ∷ later ↦ (t + lockout_seconds) - now
]

-- The test of a password once the account is known not to be locked.
check_password :
    Passwords
    → ℕ
    → String
    → String
    → Option LocalUser
    → Authenticator
    → Result AuthError LocalUser × Authenticator
unfolding record_failure
check_password lib now username password none a =
    (err invalid_credentials, record_failure now username a)
check_password lib now username password (some user) a =
    if lib.verify_password password user.password_hash
    then (ok user, record a { failures = put username [] a.failures })
    else (err invalid_credentials, record_failure now username a)

unfoldable pub authenticate :
    Passwords → ℕ → String → String → Exec Authenticator AuthError LocalUser
unfolding is_locked seconds_until_unlock check_password
authenticate lib now username password a =
    let (locked, a') = is_locked now username a in
    if locked
    then (err (account_locked (seconds_until_unlock now username a')), a')
    else check_password lib now username password (a'.users username) a'

abbrev with_password : String → LocalUser → LocalUser
with_password hash user = record user { password_hash = hash; must_change_password = false }

store_password : Passwords → String → String → LocalUser → Exec Authenticator AuthError String
store_password lib username new_password user a =
    let new_hash = lib.hash_password new_password in
    (ok new_hash, record a { users = put username (some (with_password new_hash user)) a.users })

unfoldable pub change_password :
    Passwords → ℕ → String → String → String → Exec Authenticator AuthError String
unfolding store_password authenticate
change_password lib now username current_password new_password = do
  user ← authenticate lib now username current_password
  check (not (str_eq current_password new_password)) same_password
  check (lib.is_strong new_password) weak_password
  store_password lib username new_password user
