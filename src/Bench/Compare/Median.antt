-- ===== src/Bench/Compare/Median.antt =====
-- tms/bench/compare.py: what a median is, and what the verdict of two says.
use trino_management_service.Prelude.{
  ℕ, zero, suc, ◌-◌, ◌*◌, ◌/◌, ◌≤◌, ◌<◌, leb, Bool, true, ◌&&◌, some, count, all-weaken, Bool-cases,
  inl, inr, ltb, ◌==◌, ◌+◌, ◌%◌, ◌∙◌, subst, List, [], ◌∷◌, all, length, ◌≡◌, ◌↔◌, refl, arith,
}
use trino_management_service.Bench.Compare.{
  insert_number, sort_numbers, nth, middle_of, median, faster, slower, verdict_of_medians,
}

insert_number-all :
    (p : ℕ → Bool) (n : ℕ) (xs : List ℕ) → all p (insert_number n xs) ≡ all p (n ∷ xs)
insert_number-all p n [] = refl
insert_number-all p n (x ∷ xs) = ground (arith, insert_number-all p n xs)

sort_numbers-all : (p : ℕ → Bool) (xs : List ℕ) → all p (sort_numbers xs) ≡ all p xs
unfolding sort_numbers
sort_numbers-all p [] = refl
sort_numbers-all p (x ∷ xs) =
    ground (arith, sort_numbers-all p xs, insert_number-all p x (sort_numbers xs))

insert_number-length : (n : ℕ) (xs : List ℕ) → length (insert_number n xs) ≡ suc (length xs)
insert_number-length n [] = refl
insert_number-length n (x ∷ xs) = ground (arith, insert_number-length n xs)

sort_numbers-length : (xs : List ℕ) → length (sort_numbers xs) ≡ length xs
unfolding sort_numbers
sort_numbers-length [] = refl
sort_numbers-length (x ∷ xs) =
    ground (arith, sort_numbers-length xs, insert_number-length x (sort_numbers xs))

nth-all :
    (p : ℕ → Bool) (n : ℕ) (xs : List ℕ) → all p xs ≡ true → n < length xs → p (nth n xs) ≡ true
nth-all p n [] h lt = absurd (omega (arith, lt))
nth-all p zero (x ∷ xs) h lt = ground (arith, h)
nth-all p (suc n) (x ∷ xs) h lt = nth-all p n xs (ground (arith, h)) (omega (arith, lt))

-- The numbers stand in order.
ordered : List ℕ → Bool
ordered [] = true
ordered (x ∷ xs) = all (leb x) xs && ordered xs

insert_number-ordered :
    (n : ℕ) (xs : List ℕ) → ordered xs ≡ true → ordered (insert_number n xs) ≡ true
unfolding ordered
insert_number-ordered n [] h = refl
insert_number-ordered n (x ∷ xs) h = elim (Bool-cases (ltb x n)) [
  | inl after ↦
      let ih = insert_number-ordered n xs (ground (arith, h)) in
      rw (after, insert_number-all (leb x) n xs, ih) (ground (arith, h))
  | inr before ↦
      let later = all-weaken (leb x) (leb n) xs (λ y le. ground (arith, le)) (ground (arith, h)) in
      rw (before, later) (ground (arith, h))
]

sort_numbers-ordered : (xs : List ℕ) → ordered (sort_numbers xs) ≡ true
unfolding ordered sort_numbers
sort_numbers-ordered [] = refl
sort_numbers-ordered (x ∷ xs) = insert_number-ordered x (sort_numbers xs) (sort_numbers-ordered xs)

insert_number-count :
    (p : ℕ → Bool) (n : ℕ) (xs : List ℕ) → count p (insert_number n xs) ≡ count p (n ∷ xs)
insert_number-count p n [] = refl
insert_number-count p n (x ∷ xs) = ground (arith, insert_number-count p n xs)

sort_numbers-count : (p : ℕ → Bool) (xs : List ℕ) → count p (sort_numbers xs) ≡ count p xs
unfolding sort_numbers
sort_numbers-count p [] = refl
sort_numbers-count p (x ∷ xs) =
    ground (arith, sort_numbers-count p xs, insert_number-count p x (sort_numbers xs))

-- The number of rank `k`, from 0, among these, however they are listed: at most `k` of them are smaller,
-- and more than `k` are not greater.
abbrev pub HasRank : ℕ → List ℕ → ℕ → Type 0
HasRank k xs v = (count (λ x. ltb x v) xs ≤ k) × (k < count (λ x. leb x v) xs)

count_above : (v : ℕ) (xs : List ℕ) → all (leb v) xs ≡ true → count (λ x. ltb x v) xs ≡ 0
count_above v [] h = refl
count_above v (x ∷ xs) h = ground (arith, count_above v xs)

nth-HasRank : (k : ℕ) (xs : List ℕ) → ordered xs ≡ true → k < length xs → HasRank k xs (nth k xs)
unfolding ordered
nth-HasRank k [] h lt = absurd (omega (arith, lt))
nth-HasRank zero (x ∷ xs) h lt = ground (arith, count_above x xs)
nth-HasRank (suc k) (x ∷ xs) h lt =
    let (few, many) = nth-HasRank k xs (ground (arith, h)) (omega (arith, lt)) in
    let le = nth-all (leb x) k xs (ground (arith, h)) (omega (arith, lt)) in
    ground (arith, few, many, le)

sorted-HasRank :
    (k : ℕ) (values : List ℕ) → k < length values → HasRank k values (nth k (sort_numbers values))
sorted-HasRank k values lt =
    let sorted = sort_numbers values in
    let v = nth k sorted in
    let (few, many) =
      nth-HasRank k sorted (sort_numbers-ordered values) (rw (sort_numbers-length values) lt) in
    (
      rw (sort_numbers-count (λ x. ltb x v) values) at few,
      rw (sort_numbers-count (λ x. leb x v) values) at many,
    )

middle_of-sum :
    (xs : List ℕ)
    → 1 ≤ length xs
    → middle_of xs ≡ nth ((length xs - 1) / 2) xs + nth (length xs / 2) xs
unfolding middle_of
middle_of-sum xs h = elim (Bool-cases (length xs % 2 == 0)) [
  | inl even ↦
      let rest : length xs % 2 ≡ 0 = ground (arith, even) in
      let same : (length xs - 1) / 2 ≡ length xs / 2 - 1 = omega (arith, rest, h) in
      rw (even, same) refl
  | inr odd ↦
      let rest : length xs % 2 ≡ 1 = ground (arith, odd) in
      let same : (length xs - 1) / 2 ≡ length xs / 2 = omega (arith, rest, h) in
      rw (odd, same) (omega arith)
]

-- The median of `n` times is half the sum of the time of rank `(n - 1) / 2` and the one of rank `n / 2`,
-- counted from 0 and rounded down: the middle one twice, or the two middle ones. (The model's median
-- is twice as large as the code's, and so is the sum itself.)
pub median-HasRank :
    (values : List ℕ) {m : ℕ}
    → median values ≡ some m
    → (a : ℕ) × (b : ℕ) × (m ≡ a + b)
      × HasRank ((length values - 1) / 2) values a
      × HasRank (length values / 2) values b
unfolding median
median-HasRank [] {m} e = absurd (ground (arith, e))
median-HasRank (x ∷ xs) {m} e =
    let values = x ∷ xs in
    let sorted = sort_numbers values in
    let size : length sorted ≡ length values = sort_numbers-length values in
    let sum : middle_of sorted
        ≡ nth ((length values - 1) / 2) sorted + nth (length values / 2) sorted =
      subst (λ (n : ℕ). middle_of sorted ≡ nth ((n - 1) / 2) sorted + nth (n / 2) sorted) size
        (middle_of-sum sorted (omega (arith, size))) in
    let whole : m ≡ middle_of sorted = ground (arith, e) in
    (
      nth ((length values - 1) / 2) sorted,
      nth (length values / 2) sorted,
      whole ∙ sum,
      sorted-HasRank ((length values - 1) / 2) values (omega arith),
      sorted-HasRank (length values / 2) values (omega arith),
    )

-- A query is called slower exactly when its baseline is not 0 and the candidate's median is at least 5 %
-- above it, and faster exactly when it is at least 5 % below.
pub verdict_iff :
    (a b : ℕ)
    → ((verdict_of_medians (some a) (some b) ≡ slower) ↔ (0 < a) × (105 * a ≤ 100 * b))
      × ((verdict_of_medians (some a) (some b) ≡ faster) ↔ (0 < a) × (100 * b ≤ 95 * a))
unfolding verdict_of_medians
verdict_iff a b = ground arith
