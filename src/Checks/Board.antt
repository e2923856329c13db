-- ===== src/Checks/Board.antt =====
-- The work board on concrete inputs.
use trino_management_service.Prelude.{
  ℕ, zero, suc, ◌≡◌, refl, ap, is_blank, true, String, some, none, List, [], ◌∷◌,
}
use trino_management_service.Api.Permissions.{Principal, principal, can}
use trino_management_service.Core.Audit.Reason.{chars}
use trino_management_service.Work.Items.{Numbers}
use trino_management_service.Work.Board.{new_board, raise_request}
use trino_management_service.Work.Board.Trail.{is_kept}
use trino_management_service.Work.Board.History.{
  Step, raise_step, status_step, run, run-is_kept, is_ok, raise_request-ok,
}

-- Numbers in strokes.
abbrev strokes : ℕ → String
strokes zero = ""
strokes (suc n) = String.◌∷◌ (Prim.Native.Char.char 49 tt) (strokes n)

abbrev numbers : Numbers
numbers = record { int = λ s. some (chars s); format = strokes }

chars-strokes : (n : ℕ) → chars (strokes n) ≡ n
chars-strokes zero = refl
chars-strokes (suc n) = ap suc (chars-strokes n)

numbers-lawful : (n : ℕ) → numbers.int (numbers.format n) ≡ some n
numbers-lawful n = ap some (chars-strokes n)

abbrev admin : Principal
admin = principal "ann" ("admin" ∷ []) none

abbrev steps : List Step
steps =
    raise_step admin "Export" ""
    ∷ status_step admin "REQ-1" "blocked"
    ∷ status_step admin "REQ-1" "nowhere"
    ∷ raise_step admin "Import" ""
    ∷ status_step admin "REQ-1" "done"
    ∷ []

run-is_kept_example : is_kept (run numbers steps new_board) ≡ true
run-is_kept_example = run-is_kept numbers steps

raise_request-ok_example :
    is_ok (raise_request numbers admin "Export" "" (run numbers steps new_board)).0 ≡ true
raise_request-ok_example =
    raise_request-ok numbers admin "Export" "" (run numbers steps new_board) numbers-lawful
      (unfold can principal in refl) (unfold is_blank in refl)
