-- ===== src/Core/LocalAuth/Lockout.antt =====
-- tms/core/localauth.py: how many passwords can be tried.
use trino_management_service.Prelude.{
  ℕ, suc, ◌⊎◌, ◌+◌, ◌≤◌, ◌<◌, ◌≡◌, refl, inl, inr, ltb, leb, String, eq_refl, Bool, true, false,
  not, ◌&&◌, Option, none, some, List, [], ◌∷◌, ◌++◌, keep, all, count, length, Result, err, arith,
  Bool-cases, Option-cases,
}
use trino_management_service.Core.LocalAuth.{
  LocalUser, AuthError, account_locked, Passwords, Authenticator, put, is_recent, lockout_seconds,
  record_failure, is_locked, check_password, authenticate,
}

-- Attempts to log in as one user, each with its time and its password.
unfoldable pub attempts :
    Passwords
    → String
    → List (ℕ × String)
    → Authenticator
    → List (Result AuthError LocalUser) × Authenticator
attempts lib username [] a = ([], a)
attempts lib username ((now, password) ∷ rest) a =
    let (answer, a') = authenticate lib now username password a in
    let (answers, last) = attempts lib username rest a' in (answer ∷ answers, last)

abbrev pub is_refused_locked : Result AuthError LocalUser → Bool
is_refused_locked (err (account_locked n)) = true
is_refused_locked _ = false

-- A password was compared.
abbrev pub was_checked : Result AuthError LocalUser → Bool
was_checked answer = not (is_refused_locked answer)

-- The times lie in the window that begins at `start`.
abbrev pub in_window : ℕ → ℕ × String → Bool
in_window start attempt = leb start attempt.0 && ltb attempt.0 (start + lockout_seconds)

abbrev pub is_since : ℕ → ℕ → Bool
is_since start t = leb start t

keep_recent :
    (start now : ℕ) (ts : List ℕ)
    → all (is_since start) ts ≡ true
    → now < start + lockout_seconds
    → keep (is_recent now) ts ≡ ts
keep_recent start now [] h lt = refl
keep_recent start now (t ∷ ts) h lt = ground (arith, keep_recent start now ts)

all-append : (p : ℕ → Bool) (xs ys : List ℕ) → all p (xs ++ ys) ≡ (all p xs && all p ys)
all-append p [] ys = refl
all-append p (x ∷ xs) ys = ground (arith, all-append p xs ys)

put_here : {V : Type 0} (k : String) (v : V) (table : String → V) → put k v table k ≡ v
put_here k v table = rw (eq_refl k) refl

-- What is too old to be kept was not stored since the window began.
count_recent :
    (start now : ℕ) (ts : List ℕ)
    → now < start + lockout_seconds
    → count (is_since start) (keep (is_recent now) ts) ≡ count (is_since start) ts
count_recent start now [] lt = refl
count_recent start now (t ∷ ts) lt = ground (arith, count_recent start now ts)

count-append : (p : ℕ → Bool) (xs ys : List ℕ) → count p (xs ++ ys) ≡ count p xs + count p ys
count-append p [] ys = omega arith
count-append p (x ∷ xs) ys = ground (arith, count-append p xs ys)

count-bounded : (p : ℕ → Bool) (xs : List ℕ) → count p xs ≤ length xs
count-bounded p [] = omega arith
count-bounded p (x ∷ xs) = ground (arith, count-bounded p xs)

module _ (lib : Passwords) (username : String) (start : ℕ) where
  -- No password of the account is right.
  abbrev pub is_wrong : Option LocalUser → ℕ × String → Bool
  is_wrong none attempt = true
  is_wrong (some user) attempt = not (lib.verify_password attempt.1 user.password_hash)

  -- What an attempt in the window does, by the failures so far.
  attempt_locked :
      (now : ℕ) (password : String) (a : Authenticator)
      → all (is_since start) (a.failures username) ≡ true
      → now < start + lockout_seconds
      → 5 ≤ length (a.failures username)
      → (is_refused_locked (authenticate lib now username password a).0 ≡ true)
        × ((authenticate lib now username password a).1.failures username ≡ a.failures username)
  unfolding authenticate is_locked
  attempt_locked now password a since lt many =
      let kept = keep_recent start now (a.failures username) since lt in
      ground (arith, kept, eq_refl username)

  -- An attempt in the window with a wrong password is refused unseen, or is one of the first five.
  attempt_counted :
      (now : ℕ) (password : String) (a : Authenticator)
      → start ≤ now
      → now < start + lockout_seconds
      → is_wrong (a.users username) (now, password) ≡ true
      → let r = authenticate lib now username password a in
        let before = count (is_since start) (a.failures username) in
        let after = count (is_since start) (r.1.failures username) in
        (r.1.users ≡ a.users)
        × (((was_checked r.0 ≡ false) × (after ≡ before))
            ⊎ ((was_checked r.0 ≡ true) × (before < 5) × (after ≡ suc before)))
  unfolding authenticate is_locked check_password record_failure
  attempt_counted now password a from lt wrong =
      let ts = a.failures username in
      let recent = keep (is_recent now) ts in
      let same = count_recent start now ts lt in
      let again = count_recent start now recent lt in
      let more = count-append (is_since start) (keep (is_recent now) recent) (now ∷ []) in
      let few = count-bounded (is_since start) recent in
      elim (Bool-cases (leb 5 (length recent))) [
        | inl full ↦ ground (arith, full, same, eq_refl username)
        | inr free ↦ elim (Option-cases (a.users username)) [
          | inl missing ↦ ground (arith, free, same, again, more, few, missing, eq_refl username)
          | inr (user, found) ↦
              ground (arith, free, same, again, more, few, found, eq_refl username)
        ]
      ]

  -- Once five failures lie in the window, no password is compared any more before the window is over,
  -- not even the right one.
  pub locked_for_all :
      (tries : List (ℕ × String)) (a : Authenticator)
      → all (is_since start) (a.failures username) ≡ true
      → 5 ≤ length (a.failures username)
      → all (in_window start) tries ≡ true
      → all is_refused_locked (attempts lib username tries a).0 ≡ true
  unfolding attempts
  locked_for_all [] a since many inside = refl
  locked_for_all ((now, password) ∷ rest) a since many inside =
      let (refused, same) = attempt_locked now password a since (ground arith) many in
      let next = (authenticate lib now username password a).1 in
      rw refused (locked_for_all rest next (rw same since) (rw same many) (ground arith))

  -- If no attempt on an account in a window of five minutes has the right password, at most five of the
  -- passwords are compared, the failures counted with them that are stored for the account since the
  -- window began, of which there are at most five; the others are refused unseen.
  pub guesses_limited :
      (tries : List (ℕ × String)) (a : Authenticator)
      → count (is_since start) (a.failures username) ≤ 5
      → all (in_window start) tries ≡ true
      → all (is_wrong (a.users username)) tries ≡ true
      → count was_checked (attempts lib username tries a).0
          + count (is_since start) (a.failures username)
        ≤ 5
  unfolding attempts
  guesses_limited [] a few inside wrong = omega arith
  guesses_limited ((now, password) ∷ rest) a few inside wrong =
      let next = (authenticate lib now username password a).1 in
      let (users, step) =
        attempt_counted now password a (ground arith) (ground arith) (ground arith) in
      let later : all (is_wrong (next.users username)) rest ≡ true = rw users (ground arith) in
      elim step [
        | inl (unseen, same) ↦
            (let ih = guesses_limited rest next (omega (arith, same)) (ground arith) later in
              ground (arith, unseen, same, ih))
        | inr (checked, room, grown) ↦
            (let ih = guesses_limited rest next (omega (arith, room, grown)) (ground arith) later in
              ground (arith, checked, grown, ih))
      ]
