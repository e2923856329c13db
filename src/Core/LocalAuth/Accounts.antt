-- ===== src/Core/LocalAuth/Accounts.antt =====
-- tms/core/localauth.py: the account table of the configuration.
use trino_management_service.Prelude.{
  String, is_empty, ltb, length, not, Option, none, some, Bool, List, [], ◌∷◌, Result, ok, err,
  guard, ◌>>=◌, ◌>>◌, if◌then◌else◌,
}
use trino_management_service.Core.LocalAuth.{
  LocalUser, AuthError, not_a_mapping, plaintext_password, no_hash, no_roles,
}

-- An entry of `local_users`: `none` is one that is not a mapping.
pub record Entry : Type 0 where
  pub has_plaintext : Bool
  pub password_hash : Option String
  pub roles : List String
  pub must_change_password : Bool

abbrev hash_of : String → Option String → Result AuthError String
hash_of username none = err (no_hash username)
hash_of username (some h) = if is_empty h then err (no_hash username) else ok h

build_user : String → Option Entry → Result AuthError LocalUser
build_user username none = err (not_a_mapping username)
build_user username (some entry) = do
  guard (not entry.has_plaintext) (plaintext_password username)
  hash ← hash_of username entry.password_hash
  guard (ltb 0 (length entry.roles)) (no_roles username)
  ok (record {
    username = username;
    password_hash = hash;
    roles = entry.roles;
    must_change_password = entry.must_change_password;
  })

unfoldable pub build_users : List (String × Option Entry) → Result AuthError (List LocalUser)
unfolding build_user
build_users [] = ok []
build_users ((username, entry) ∷ rest) = do
  user ← build_user username entry
  users ← build_users rest
  ok (user ∷ users)
