-- ===== src/Checks/Sessions/Encoding.antt =====
-- A codec of claims for the tests: prefix codes for the fields, and a text escaped so that no dot is left.
use Prim.Native.Char.{Char, char, code, IsScalar}
use trino_management_service.Prelude.{
  ℕ, zero, suc, ◌≡◌, refl, sym, subst, String, Bool, true, false, Option, none, some, List, [], ◌∷◌,
  arith, inl, inr, Bool-cases, if◌then◌else◌, ◌==◌, ◌%◌,
}
use trino_management_service.Core.Audit.Reason.{join, chars}
use trino_management_service.Core.Sessions.Padding.{is_equals, has_equals}
use trino_management_service.Core.Sessions.{Claims, Primitives}
use trino_management_service.Core.Sessions.Split.{is_dot, has_dot}
use trino_management_service.Core.Sessions.Lifetime.{IsLawful, IsBase64}

abbrev dot : Char
dot = char 46 tt

abbrev zero_char : Char
zero_char = char 48 tt

abbrev one : Char
one = char 49 tt

abbrev two : Char
two = char 50 tt

abbrev equals_char : Char
equals_char = char 61 tt

dot-eq : (c : Char) → is_dot (code c) ≡ true → c ≡ dot
dot-eq (char n p) h =
    let e : n ≡ 46 = ground arith in
    subst (λ (m : ℕ). (q : IsScalar m) → char m q ≡ dot) (sym e) (λ q. refl) p

equals-eq : (c : Char) → is_equals (code c) ≡ true → c ≡ equals_char
equals-eq (char n p) h =
    let e : n ≡ 61 = ground arith in
    subst (λ (m : ℕ). (q : IsScalar m) → char m q ≡ equals_char) (sym e) (λ q. refl) p

-- Each character of a text behind a 1, and a 0 at the end.
abbrev write_text : String → String → String
write_text String.[] rest = String.◌∷◌ zero_char rest
write_text (String.◌∷◌ c s) rest = String.◌∷◌ one (String.◌∷◌ c (write_text s rest))

abbrev four : Char → Char → String → String
four a b rest = String.◌∷◌ a (String.◌∷◌ b (String.◌∷◌ one (String.◌∷◌ one rest)))

-- The group of one character, and the last group, which ends in two "=".
abbrev group : Char → String → String
group c rest =
    if is_dot (code c)
    then four zero_char one rest
    else if is_equals (code c)
    then four two one rest
    else four one c rest

unfoldable pub body : String → String
body String.[] = "11"
body (String.◌∷◌ c s) = group c (body s)

abbrev pub encode : String → String
encode s = join (body s) "=="

push : Char → Option String → Option String
push c none = none
push c (some s) = some (String.◌∷◌ c s)

push_first : Char → Option (String × String) → Option (String × String)
push_first c none = none
push_first c (some (s, rest)) = some (String.◌∷◌ c s, rest)

unfoldable pub decode : String → Option String
unfolding push
decode (String.◌∷◌ a (String.◌∷◌ b (String.◌∷◌ c (String.◌∷◌ d rest)))) =
    let later = decode rest in
    if is_equals (code d)
    then some String.[]
    else if code a == 48
    then push dot later
    else if code a == 50
    then push equals_char later
    else push b later
decode _ = none

unfoldable pub read_text : Bool → String → Option (String × String)
unfolding push_first
read_text _ String.[] = none
read_text true (String.◌∷◌ c s) = push_first c (read_text false s)
read_text false (String.◌∷◌ c s) = elim (code c == 48) [
  | true ↦ some (String.[], s)
  | false ↦ read_text true s
]

decode-encode : (s : String) → decode (encode s) ≡ some s
unfolding decode body push
decode-encode String.[] = refl
decode-encode (String.◌∷◌ c s) = elim (Bool-cases (is_dot (code c))) [
  | inl h ↦ rw (h, decode-encode s, dot-eq c h) refl
  | inr h ↦ elim (Bool-cases (is_equals (code c))) [
    | inl k ↦ rw (h, k, decode-encode s, equals-eq c k) refl
    | inr k ↦ rw (h, k, decode-encode s) refl
  ]
]

body_plain : (s : String) → has_equals (body s) ≡ false
unfolding body
body_plain String.[] = refl
body_plain (String.◌∷◌ c s) = ground (arith, body_plain s)

encode_no_dot : (s : String) → has_dot (encode s) ≡ false
unfolding body
encode_no_dot String.[] = refl
encode_no_dot (String.◌∷◌ c s) = ground (arith, encode_no_dot s)

encode_in_fours : (s : String) → chars (encode s) % 4 ≡ 0
unfolding body
encode_in_fours String.[] = refl
encode_in_fours (String.◌∷◌ c s) = ground (arith, encode_in_fours s)

encode-IsBase64 : (s : String) → IsBase64 (encode s)
encode-IsBase64 s = (encode_in_fours s, encode_no_dot s, body s, 2, refl, omega arith, body_plain s)

read-write_text : (s rest : String) → read_text false (write_text s rest) ≡ some (s, rest)
unfolding read_text push_first
read-write_text String.[] rest = refl
read-write_text (String.◌∷◌ c s) rest = rw (read-write_text s rest) refl

abbrev write_number : ℕ → String → String
write_number zero rest = String.◌∷◌ zero_char rest
write_number (suc n) rest = String.◌∷◌ one (write_number n rest)

bump : Option (ℕ × String) → Option (ℕ × String)
bump none = none
bump (some (n, rest)) = some (suc n, rest)

unfoldable pub read_number : String → Option (ℕ × String)
unfolding bump
read_number String.[] = none
read_number (String.◌∷◌ c s) = elim (code c == 48) [
  | true ↦ some (0, s)
  | false ↦ bump (read_number s)
]

read-write_number : (n : ℕ) (rest : String) → read_number (write_number n rest) ≡ some (n, rest)
unfolding read_number bump
read-write_number zero rest = refl
read-write_number (suc n) rest = rw (read-write_number n rest) refl

abbrev write_words : List String → String → String
write_words [] rest = String.◌∷◌ zero_char rest
write_words (w ∷ ws) rest = String.◌∷◌ one (write_text w (write_words ws rest))

pub data Mode : Type 0 where
  outside inside escaped : Mode

add_word : Option (List String × String) → Option (List String × String)
add_word none = none
add_word (some (ws, rest)) = some (String.[] ∷ ws, rest)

lengthen : Char → Option (List String × String) → Option (List String × String)
lengthen c none = none
lengthen c (some ([], rest)) = none
lengthen c (some (w ∷ ws, rest)) = some (String.◌∷◌ c w ∷ ws, rest)

unfoldable pub read_words : Mode → String → Option (List String × String)
unfolding add_word lengthen
read_words _ String.[] = none
read_words outside (String.◌∷◌ c s) = elim (code c == 48) [
  | true ↦ some ([], s)
  | false ↦ read_words inside s
]
read_words inside (String.◌∷◌ c s) = elim (code c == 48) [
  | true ↦ add_word (read_words outside s)
  | false ↦ read_words escaped s
]
read_words escaped (String.◌∷◌ c s) = lengthen c (read_words inside s)

read_rest :
    (w : String) (ws : List String) (rest : String)
    → read_words outside rest ≡ some (ws, String.[])
    → read_words inside (write_text w rest) ≡ some (w ∷ ws, String.[])
unfolding read_words add_word lengthen
read_rest String.[] ws rest h = rw h refl
read_rest (String.◌∷◌ c w) ws rest h = rw (read_rest w ws rest h) refl

read-write_words :
    (ws : List String) → read_words outside (write_words ws String.[]) ≡ some (ws, String.[])
unfolding read_words
read-write_words [] = refl
read-write_words (w ∷ ws) = read_rest w ws (write_words ws String.[]) (read-write_words ws)

abbrev flag : Bool → ℕ
flag true = 1
flag false = 0

unfoldable pub dumps : Claims → String
dumps c = write_text c.username (
    write_number c.issued_at (
      write_number c.last_seen
        (write_number (flag c.must_change_password) (write_words c.roles String.[]))))

load_roles : String → ℕ → ℕ → ℕ → Option (List String × String) → Option Claims
load_roles u i l m none = none
load_roles u i l m (some (roles, rest)) = some (record {
  username = u;
  roles = roles;
  issued_at = i;
  last_seen = l;
  must_change_password = m == 1;
})

load_flag : String → ℕ → ℕ → Option (ℕ × String) → Option Claims
unfolding load_roles
load_flag u i l none = none
load_flag u i l (some (m, rest)) = load_roles u i l m (read_words outside rest)

load_seen : String → ℕ → Option (ℕ × String) → Option Claims
unfolding load_flag
load_seen u i none = none
load_seen u i (some (l, rest)) = load_flag u i l (read_number rest)

load_issued : String → Option (ℕ × String) → Option Claims
unfolding load_seen
load_issued u none = none
load_issued u (some (i, rest)) = load_seen u i (read_number rest)

load_name : Option (String × String) → Option Claims
unfolding load_issued
load_name none = none
load_name (some (u, rest)) = load_issued u (read_number rest)

unfoldable pub loads : String → Option Claims
unfolding load_name
loads s = load_name (read_text false s)

flag-eq : (b : Bool) → (flag b == 1) ≡ b
flag-eq true = refl
flag-eq false = refl

loads-dumps : (c : Claims) → loads (dumps c) ≡ some c
unfolding loads dumps load_name load_issued load_seen load_flag load_roles
loads-dumps c =
    rw
      (
        read-write_text c.username (
            write_number c.issued_at (
              write_number c.last_seen
                (write_number (flag c.must_change_password) (write_words c.roles String.[])))),
        read-write_number c.issued_at (
            write_number c.last_seen
              (write_number (flag c.must_change_password) (write_words c.roles String.[]))),
        read-write_number c.last_seen
            (write_number (flag c.must_change_password) (write_words c.roles String.[])),
        read-write_number (flag c.must_change_password) (write_words c.roles String.[]),
        read-write_words c.roles,
        flag-eq c.must_change_password,
      )
      refl

abbrev pub plain : Primitives
plain = record {
  dumps = dumps;
  loads = loads;
  urlsafe_b64encode = λ s. encode s;
  urlsafe_b64decode = λ s. decode s;
  digest = join;
}

pub plain-IsLawful : IsLawful plain
plain-IsLawful = record {
  loads-dumps = loads-dumps;
  urlsafe_b64 = decode-encode;
  form = encode-IsBase64;
}
