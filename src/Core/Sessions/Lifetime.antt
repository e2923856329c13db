-- ===== src/Core/Sessions/Lifetime.antt =====
-- tms/core/sessions.py: how long a token is accepted.
use trino_management_service.Prelude.{
  ℕ, ◌+◌, ◌≤◌, ◌≡◌, refl, inl, inr, String, eq_refl, Bool, true, false, Option, none, some, List,
  [], ◌∷◌, Result, ok, err, ◌>>=◌, arith, Result-cases, ap, subst, sym, ◌∙◌, ◌%◌,
}
use trino_management_service.Core.Sessions.Split.{has_dot, split_last-join}
use trino_management_service.Core.Audit.Reason.{join, chars}
use trino_management_service.Core.Sessions.Padding.{
  strip_equals, equals, missing, has_equals, strip_equals-join, missing-body, has_dot-join,
}
use trino_management_service.Core.Sessions.{
  b64encode, b64decode, Claims, SessionError, Primitives, SessionCodec, or_now, sign, issue, verify,
  refresh, check_parts, check_ages,
}

-- The text of a base64 encoding: groups of four, of which at most the last two characters are a "=",
-- and no dot.
abbrev pub IsBase64 : String → Type 0
IsBase64 text =
    (chars text % 4 ≡ 0)
    × (has_dot text ≡ false)
    × (body : String) × (k : ℕ) × (text ≡ join body (equals k))
    × (k ≤ 2)
    × (has_equals body ≡ false)

-- What the libraries document: each decoder undoes its encoder, and the form of base64 for URLs.
pub record IsLawful (lib : Primitives) : Type 0 where
  pub loads-dumps : (c : Claims) → lib.loads (lib.dumps c) ≡ some c
  pub urlsafe_b64 : (s : String) → lib.urlsafe_b64decode (lib.urlsafe_b64encode s) ≡ some s
  pub form : (s : String) → IsBase64 (lib.urlsafe_b64encode s)

abbrev pub accepts : Result SessionError Claims → Bool
accepts (ok c) = true
accepts (err e) = false

abbrev pub claims_now : String → List String → ℕ → ℕ → Bool → Claims
claims_now username roles now issued_at must_change = record {
  username = username;
  roles = roles;
  issued_at = issued_at;
  last_seen = now;
  must_change_password = must_change;
}

module _ (lib : Primitives) (codec : SessionCodec) where
  -- A session that is used at these times: each use verifies the token and issues the next.
  unfoldable pub used : List ℕ → String → Result SessionError String
  used [] token = ok token
  used (now ∷ times) token = do
    claims ← verify lib codec token now
    used times (refresh lib codec claims now)

  -- The token of a session that began with a login at `start` is of that login.
  Descends : ℕ → String → Type 0
  Descends start token =
      (username : String) × (roles : List String) × (now : ℕ) × (must_change : Bool) × (token
        ≡ issue lib codec username roles now (some start) must_change)

module _ (lib : Primitives) (codec : SessionCodec) (lawful : IsLawful lib) where
  -- The padding that is taken off is put back.
  b64decode-b64encode : (s : String) → b64decode lib (b64encode lib s) ≡ some s
  unfolding b64decode b64encode
  b64decode-b64encode s =
      let (whole, no_dot, body, k, same, few, plain) = lawful.form s in
      let stripped : strip_equals (lib.urlsafe_b64encode s) ≡ body =
        ap strip_equals same ∙ strip_equals-join body k plain in
      let back : missing body ≡ k =
        missing-body body k (subst (λ (t : String). chars t % 4 ≡ 0) same whole) few in
      let text : join body (equals (missing body)) ≡ lib.urlsafe_b64encode s =
        ap (λ (n : ℕ). join body (equals n)) back ∙ sym same in
      ap (λ (t : String). lib.urlsafe_b64decode (join t (equals (missing t)))) stripped
      ∙ ap lib.urlsafe_b64decode text
      ∙ lawful.urlsafe_b64 s

  b64encode_no_dot : (s : String) → has_dot (b64encode lib s) ≡ false
  unfolding b64encode
  b64encode_no_dot s =
      let (whole, no_dot, body, k, same, few, plain) = lawful.form s in
      let stripped : strip_equals (lib.urlsafe_b64encode s) ≡ body =
        ap strip_equals same ∙ strip_equals-join body k plain in
      ap has_dot stripped
      ∙ has_dot-join body (equals k) (subst (λ (t : String). has_dot t ≡ false) same no_dot)

  -- A token that was issued is, once it is split, the claims and only their ages are checked.
  verify-issue_ages :
      (username : String) (roles : List String) (now later : ℕ) (issued_at : Option ℕ)
      (must_change : Bool)
      → verify lib codec (issue lib codec username roles now issued_at must_change) later
        ≡ check_ages lib codec later
            (claims_now username roles now (or_now issued_at now) must_change)
  unfolding verify issue sign check_parts
  verify-issue_ages username roles now later issued_at must_change =
      let payload = lib.dumps (claims_now username roles now (or_now issued_at now) must_change) in
      let signature = b64encode lib (lib.digest codec.secret payload) in
      rw
        (
          split_last-join (b64encode lib payload) signature
              (b64encode_no_dot (lib.digest codec.secret payload)),
          b64decode-b64encode payload,
          eq_refl signature,
          lawful.loads-dumps (claims_now username roles now (or_now issued_at now) must_change),
        )
        refl

  ages :
      (later : ℕ) (c : Claims)
      → ((later ≤ c.issued_at + codec.absolute_timeout_seconds)
            × (later ≤ c.last_seen + codec.idle_timeout_seconds)
          → check_ages lib codec later c ≡ ok c)
        × (accepts (check_ages lib codec later c) ≡ true
            → (later ≤ c.issued_at + codec.absolute_timeout_seconds)
              × (later ≤ c.last_seen + codec.idle_timeout_seconds))
  unfolding check_ages
  ages later c = ground arith

  -- A token is accepted, with the claims that it was issued with, exactly until the session's absolute
  -- and idle times are over.
  pub verify-issue :
      (username : String) (roles : List String) (now later : ℕ) (issued_at : Option ℕ)
      (must_change : Bool)
      → let answer =
          verify lib codec (issue lib codec username roles now issued_at must_change) later in
        let claims = claims_now username roles now (or_now issued_at now) must_change in
        ((later ≤ claims.issued_at + codec.absolute_timeout_seconds)
            × (later ≤ now + codec.idle_timeout_seconds)
          → answer ≡ ok claims)
        × (accepts answer ≡ true
            → (later ≤ claims.issued_at + codec.absolute_timeout_seconds)
              × (later ≤ now + codec.idle_timeout_seconds))
  unfolding check_ages
  verify-issue username roles now later issued_at must_change =
      rw (verify-issue_ages username roles now later issued_at must_change)
        (ages later (claims_now username roles now (or_now issued_at now) must_change))

  kept_issue :
      (later : ℕ) (c : Claims) {d : Claims}
      → check_ages lib codec later c ≡ ok d
      → d.issued_at ≡ c.issued_at
  unfolding check_ages
  kept_issue later c {d} h = ground arith

  refresh-Descends :
      (start now : ℕ) (token : String) {c : Claims}
      → Descends lib codec start token
      → verify lib codec token now ≡ ok c
      → Descends lib codec start (refresh lib codec c now)
  unfolding Descends refresh
  refresh-Descends start now token {c} (username, roles, seen, must_change, same) h =
      let first = verify-issue_ages username roles seen now (some start) must_change in
      let kept =
        kept_issue now (claims_now username roles seen start must_change) (rw (same, first) at h) in
      (
        c.username,
        c.roles,
        now,
        c.must_change_password,
        ap (λ (i : ℕ). issue lib codec c.username c.roles now (some i) c.must_change_password) kept,
      )

  used-Descends :
      (start : ℕ) (times : List ℕ) (token : String) {last : String}
      → Descends lib codec start token
      → used lib codec times token ≡ ok last
      → Descends lib codec start last
  unfolding used
  used-Descends start [] token {last} h e =
      (let same : token ≡ last = cc in subst (Descends lib codec start) same h)
  used-Descends start (now ∷ times) token {last} h e =
      elim (Result-cases (verify lib codec token now)) [
        | inl (x, refused) ↦ cc (rw refused at e)
        | inr (c, fine) ↦
            used-Descends start times (refresh lib codec c now)
              (refresh-Descends start now token h fine) (rw fine at e)
      ]

  -- However often a session is used, no token that comes of a login is accepted once the absolute time
  -- since that login is over.
  pub session_ends :
      (username : String) (roles : List String) (start : ℕ) (must_change : Bool) (times : List ℕ)
      (later : ℕ) {last : String}
      → used lib codec times (issue lib codec username roles start none must_change) ≡ ok last
      → accepts (verify lib codec last later) ≡ true
      → later ≤ start + codec.absolute_timeout_seconds
  unfolding issue Descends
  session_ends username roles start must_change times later {last} e fine =
      let (u, r, now, m, same) =
        used-Descends start times (issue lib codec username roles start none must_change)
          (username, roles, start, must_change, refl) e in
      ((verify-issue u r now later (some start) m).1 (rw same at fine)).0
