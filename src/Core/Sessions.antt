-- ===== src/Core/Sessions.antt =====
-- tms/core/sessions.py: signed session tokens. JSON, base64 and HMAC are libraries, and stand in the
-- record `Primitives`; a byte string is a text. A time is a number of seconds.
pub mod Lifetime
use trino_management_service.Prelude.{
  ℕ, ◌+◌, ltb, String, str_eq, is_empty, Bool, true, false, not, ◌||◌, Option, none, some, List,
  Result, ok, err, guard, ◌>>=◌, ◌>>◌, if◌then◌else◌,
}
use trino_management_service.Core.Audit.Reason.{join}
use Split.{split_last}
use Padding.{strip_equals, equals, missing}
pub mod Split
pub mod Padding

-- What a token carries: the fields `u`, `r`, `iat`, `seen` and `chg`.
pub record Claims : Type 0 where
  pub username : String
  pub roles : List String
  pub issued_at : ℕ
  pub last_seen : ℕ
  pub must_change_password : Bool

pub data SessionError : Type 0 where
  secret_required malformed_token signature_mismatch malformed_payload : SessionError
  absolute_expiry idle_expiry : SessionError

pub record Primitives : Type 0 where
  pub dumps : Claims → String
  pub loads : String → Option Claims
  -- `base64.urlsafe_b64encode(...).decode("ascii")`, and `base64.urlsafe_b64decode`
  pub urlsafe_b64encode : String → String
  pub urlsafe_b64decode : String → Option String
  -- the digest of a payload under a secret
  pub digest : String → String → String

pub record SessionCodec : Type 0 where
  pub secret : String
  pub idle_timeout_seconds : ℕ
  pub absolute_timeout_seconds : ℕ

-- `SessionCodec(...)`
unfoldable pub new_codec : String → ℕ → ℕ → Result SessionError SessionCodec
new_codec secret idle absolute =
    if is_empty secret
    then err secret_required
    else ok (record {
      secret = secret;
      idle_timeout_seconds = idle;
      absolute_timeout_seconds = absolute;
    })

abbrev or_now : Option ℕ → ℕ → ℕ
or_now none now = now
or_now (some t) now = t

abbrev from_option : {A : Type 0} → SessionError → Option A → Result SessionError A
from_option e none = err e
from_option e (some a) = ok a

-- `_b64encode`
unfoldable pub b64encode : Primitives → String → String
b64encode lib raw = strip_equals (lib.urlsafe_b64encode raw)

-- `_b64decode`
unfoldable pub b64decode : Primitives → String → Option String
b64decode lib text = lib.urlsafe_b64decode (join text (equals (missing text)))

module _ (lib : Primitives) (codec : SessionCodec) where
  -- `_sign`
  unfoldable pub sign : String → String
  sign payload = b64encode lib (lib.digest codec.secret payload)

  unfoldable pub issue : String → List String → ℕ → Option ℕ → Bool → String
  unfolding sign
  issue username roles now issued_at must_change_password =
      let payload = lib.dumps (record {
        username = username;
        roles = roles;
        issued_at = or_now issued_at now;
        last_seen = now;
        must_change_password = must_change_password;
      }) in
      join (b64encode lib payload) (join "." (sign payload))

  check_ages : ℕ → Claims → Result SessionError Claims
  check_ages now claims = do
    guard (not (ltb (claims.issued_at + codec.absolute_timeout_seconds) now)) absolute_expiry
    guard (not (ltb (claims.last_seen + codec.idle_timeout_seconds) now)) idle_expiry
    ok claims

  -- What follows the split of the token at its last dot.
  check_parts : ℕ → String → String → Result SessionError Claims
  unfolding sign check_ages
  check_parts now encoded_payload signature = do
    payload ← from_option malformed_token (b64decode lib encoded_payload)
    guard (str_eq (sign payload) signature) signature_mismatch
    claims ← from_option malformed_payload (lib.loads payload)
    check_ages now claims

  check_split : ℕ → Option (String × String) → Result SessionError Claims
  unfolding check_parts
  check_split now none = err malformed_token
  check_split now (some (encoded_payload, signature)) = check_parts now encoded_payload signature

  unfoldable pub verify : String → ℕ → Result SessionError Claims
  unfolding check_split
  verify token now = check_split now (split_last token)

  unfoldable pub refresh : Claims → ℕ → String
  unfolding issue
  refresh claims now =
      issue claims.username claims.roles now (some claims.issued_at) claims.must_change_password
