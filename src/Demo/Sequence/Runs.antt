-- ===== src/Demo/Sequence/Runs.antt =====
-- packages/demo/src/validation/sequence.ts: the tests on the numbers of a run.
use firemig.Prelude.{
  ℕ, zero, suc, ◌+◌, ◌≤◌, ◌<◌, ◌≡◌, refl, sym, ap, ◌∙◌, inl, inr, true, false, List, [], ◌∷◌,
  length, ◌==◌, arith, Bool-cases,
}
use firemig.Prelude.Integers.{
  ℤ, pos, pos_part, neg_part, ◌+ℤ◌, ◌≤ℤ◌, eqb_ℤ, eqb_ℤ_iff, +ℤ_parts, eq_of_parts,
}
use firemig.Demo.Sequence.{has, duplicates, numbers, out_of_order_from, missing, every_same}

pub length-numbers : (first : ℤ) (index n : ℕ) → length (numbers first index n) ≡ n
unfolding numbers
length-numbers first index zero = refl
length-numbers first index (suc n) = ap suc (length-numbers first (index + 1) n)

-- A number of a run lies in its range, ...
pub has-numbers_bounds :
    (first x : ℤ) (index n : ℕ)
    → has (numbers first index n) x ≡ true
    → (first +ℤ pos index ≤ℤ x) × (x +ℤ pos 1 ≤ℤ first +ℤ pos (index + n))
unfolding has numbers
has-numbers_bounds first x index zero h = absurd (cc)
has-numbers_bounds first x index (suc n) h = elim (Bool-cases (eqb_ℤ (first +ℤ pos index) x)) [
  | inl same ↦
      let e : first +ℤ pos index ≡ x = (eqb_ℤ_iff _ _).0 same in
      rw (← e) (omega (arith, +ℤ_parts), omega (arith, +ℤ_parts))
  | inr other ↦
      let q : has (numbers first (index + 1) n) x ≡ true = ground arith in
      let (low, high) = has-numbers_bounds first x (index + 1) n q in
      (omega (arith, +ℤ_parts), omega (arith, +ℤ_parts))
]

-- ... and each number of the range is in the run.
has-numbers :
    (first : ℤ) (index n j : ℕ)
    → index ≤ j
    → j < index + n
    → has (numbers first index n) (first +ℤ pos j) ≡ true
unfolding has numbers
has-numbers first index zero j low high = absurd (omega arith)
has-numbers first index (suc n) j low high = elim (Bool-cases (index == j)) [
  | inl same ↦
      let e : index ≡ j = ground arith in
      rw (e, (eqb_ℤ_iff (first +ℤ pos j) (first +ℤ pos j)).1 refl) refl
  | inr other ↦
      let later = has-numbers first (index + 1) n j (ground arith) (omega arith) in
      rw later (ground arith)
]

pub missing-numbers :
    (first : ℤ) (whole index n : ℕ)
    → index + n ≤ whole
    → missing (numbers first 0 whole) (numbers first index n) ≡ []
unfolding missing numbers
missing-numbers first whole index zero h = refl
missing-numbers first whole index (suc n) h =
    rw (has-numbers first 0 whole index (omega arith) (omega arith), missing)
      (missing-numbers first whole (index + 1) n (omega arith))

pub missing_head :
    (seen rest : List ℤ) (n : ℤ)
    → missing seen (n ∷ rest) ≡ []
    → (has seen n ≡ true) × (missing seen rest ≡ [])
unfolding missing
missing_head seen rest n h = ground arith

-- If no number of a range is missing, the last one is there too.
pub missing_last :
    (seen : List ℤ) (first : ℤ) (index n : ℕ)
    → missing seen (numbers first index (suc n)) ≡ []
    → has seen (first +ℤ pos (index + n)) ≡ true
unfolding numbers
missing_last seen first index zero h =
    let e : index + 0 ≡ index = omega arith in rw e (missing_head seen [] (first +ℤ pos index) h).0
missing_last seen first index (suc n) h =
    let e : index + suc n ≡ index + 1 + n = omega arith in
    rw e (
      missing_last seen first (index + 1) n
        (missing_head seen (numbers first (index + 1) (suc n)) (first +ℤ pos index) h).1)

next_number : (first : ℤ) (index : ℕ) → first +ℤ pos (index + 1) ≡ first +ℤ pos index +ℤ pos 1
next_number first index = eq_of_parts _ _ (omega (arith, +ℤ_parts))

pub out_of_order-numbers :
    (first : ℤ) (index n : ℕ)
    → out_of_order_from (first +ℤ pos index) (numbers first (index + 1) n) ≡ 0
unfolding out_of_order_from numbers
out_of_order-numbers first index zero = refl
out_of_order-numbers first index (suc n) =
    let e =
      (eqb_ℤ_iff (first +ℤ pos (index + 1)) (first +ℤ pos index +ℤ pos 1)).1
        (next_number first index) in
    rw e (omega (arith, out_of_order-numbers first (index + 1) n))

-- Numbers in order behind a number are a run.
pub run_of_order :
    (first : ℤ) (index : ℕ) (rest : List ℤ)
    → out_of_order_from (first +ℤ pos index) rest ≡ 0
    → rest ≡ numbers first (index + 1) (length rest)
unfolding out_of_order_from numbers
run_of_order first index [] h = refl
run_of_order first index (n ∷ rest) h = elim (Bool-cases (eqb_ℤ n (first +ℤ pos index +ℤ pos 1))) [
  | inr skipped ↦ ground arith
  | inl next ↦
      let e : first +ℤ pos (index + 1) ≡ n =
        next_number first index ∙ sym ((eqb_ℤ_iff n (first +ℤ pos index +ℤ pos 1)).0 next) in
      let q : out_of_order_from (first +ℤ pos (index + 1)) rest ≡ 0 = rw e (ground arith) in
      rw (← e) (ap (λ l. (first +ℤ pos (index + 1)) ∷ l) (run_of_order first (index + 1) rest q))
]

pub every_same-eq : (xs ys : List ℤ) → length xs ≡ length ys → every_same xs ys ≡ true → xs ≡ ys
unfolding every_same
every_same-eq [] [] l h = refl
every_same-eq [] (y ∷ ys) l h = absurd (omega arith)
every_same-eq (x ∷ xs) [] l h = cc
every_same-eq (x ∷ xs) (y ∷ ys) l h = ground (arith, eqb_ℤ_iff x y, every_same-eq xs ys)

pub every_same_self : (xs : List ℤ) → every_same xs xs ≡ true
unfolding every_same
every_same_self [] = refl
every_same_self (x ∷ xs) = rw ((eqb_ℤ_iff x x).1 refl) (every_same_self xs)

numbers_ne : (first : ℤ) (i j : ℕ) → i < j → eqb_ℤ (first +ℤ pos i) (first +ℤ pos j) ≡ false
numbers_ne first i j h = elim (Bool-cases (eqb_ℤ (first +ℤ pos i) (first +ℤ pos j))) [
  | inr other ↦ other
  | inl same ↦
      let e : first +ℤ pos i ≡ first +ℤ pos j = (eqb_ℤ_iff _ _).0 same in
      absurd (omega (arith, +ℤ_parts, ap pos_part e, ap neg_part e))
]

-- No number of a run was seen before it.
pub duplicates-numbers :
    (seen : List ℤ) (first : ℤ) (index n : ℕ)
    → ((j : ℕ) → index ≤ j → has seen (first +ℤ pos j) ≡ false)
    → duplicates seen (numbers first index n) ≡ []
unfolding duplicates numbers has
duplicates-numbers seen first index zero h = refl
duplicates-numbers seen first index (suc n) h =
    rw (h index (omega arith), duplicates)
      (duplicates-numbers ((first +ℤ pos index) ∷ seen) first (index + 1) n
        (λ j after. rw (numbers_ne first index j (omega arith)) (h j (omega arith))))
