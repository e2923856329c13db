-- ===== src/Checks/Accounts.antt =====
-- Local accounts on concrete inputs.
use trino_management_service.Prelude.{
  ◌+◌, ◌≤◌, ◌≡◌, refl, true, false, str_eq, some, none, [], ◌∷◌, all, count, arith, if◌then◌else◌,
}
use trino_management_service.Core.LocalAuth.{LocalUser, Passwords, Authenticator}
use trino_management_service.Core.LocalAuth.Lockout.{
  attempts, is_refused_locked, was_checked, locked_for_all, guesses_limited,
}

-- Hashes that are the passwords.
abbrev passwords : Passwords
passwords = record {
  verify_password = λ p h. str_eq p h;
  hash_password = λ p. p;
  is_strong = λ p. true;
}

abbrev ann : LocalUser
ann = record {
  username = "ann";
  password_hash = "s3";
  roles = "admin" ∷ [];
  must_change_password = false;
}

abbrev fresh : Authenticator
fresh = record { users = λ u. if str_eq u "ann" then some ann else none; failures = λ u. [] }

abbrev failed : Authenticator
failed = record fresh { failures = λ u. 100 ∷ 101 ∷ 102 ∷ 103 ∷ 104 ∷ [] }

locked_for_all_example :
    all is_refused_locked (attempts passwords "ann" ((105, "s3") ∷ (399, "s3") ∷ []) failed).0
    ≡ true
locked_for_all_example =
    locked_for_all passwords "ann" 100 ((105, "s3") ∷ (399, "s3") ∷ []) failed refl (omega arith)
      refl

-- One failure before the window, and one in it.
abbrev once : Authenticator
once = record fresh { failures = λ u. 20 ∷ 100 ∷ [] }

guesses_limited_example :
    count was_checked (attempts passwords "ann" ((100, "a") ∷ (101, "b") ∷ (102, "c") ∷ []) once).0
      + 1
    ≤ 5
guesses_limited_example =
    guesses_limited passwords "ann" 100 ((100, "a") ∷ (101, "b") ∷ (102, "c") ∷ []) once
      (omega arith) refl refl
