-- ===== src/Checks/Sessions.antt =====
-- Sessions, with a JSON and a base64 that compute.
mod Encoding
use trino_management_service.Prelude.{
  ℕ, ◌+◌, ◌≤◌, ◌≡◌, refl, true, false, String, some, none, [], ◌∷◌, Result, ok,
}
use trino_management_service.Core.Sessions.{
  b64encode, b64decode, Claims, SessionCodec, SessionError, issue, verify, refresh,
}
use trino_management_service.Core.Sessions.Lifetime.{
  accepts, claims_now, verify-issue, used, session_ends,
}
use trino_management_service.Core.Sessions.Split.{split_last}
use trino_management_service.Core.Sessions.Padding.{strip_equals}
use Encoding.{plain, dumps, loads, body, decode, read_text, read_words, read_number, plain-IsLawful}

abbrev short : SessionCodec
short = record { secret = "k"; idle_timeout_seconds = 5; absolute_timeout_seconds = 20 }

verify-issue_example :
    let answer = verify plain short (issue plain short "a.b" ("viewer" ∷ []) 100 none true) 104 in
    let claims = claims_now "a.b" ("viewer" ∷ []) 100 100 true in
    ((104 ≤ 120) × (104 ≤ 105) → answer ≡ ok claims)
    × (accepts answer ≡ true → (104 ≤ 120) × (104 ≤ 105))
verify-issue_example =
    verify-issue plain short plain-IsLawful "a.b" ("viewer" ∷ []) 100 104 none true

session_ends_example : 110 ≤ 120
session_ends_example =
    session_ends plain short plain-IsLawful "ann" [] 100 false (104 ∷ 107 ∷ []) 110
      {last = issue plain short "ann" [] 107 (some 100) false}
      (unfold used refresh issue verify split_last dumps loads body decode b64encode b64decode
          strip_equals read_text read_words read_number in
        refl)
      (unfold issue verify split_last dumps loads body decode b64encode b64decode strip_equals
          read_text read_words read_number in
        refl)
