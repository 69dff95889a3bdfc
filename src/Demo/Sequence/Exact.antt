-- ===== src/Demo/Sequence/Exact.antt =====
-- packages/demo/src/validation/sequence.ts: what an exact sequence is.
use firemig.Prelude.{
  ℕ, zero, suc, ◌+◌, ◌≡◌, refl, sym, ap, subst, ◌∙◌, ◌↔◌, true, List, [], ◌∷◌, length, ==_iff,
  arith,
}
use firemig.Prelude.Integers.{ℤ, pos, ◌+ℤ◌, +ℤ_parts, eq_of_parts}
use firemig.Demo.Sequence.{
  duplicates, numbers, expected, out_of_order, missing, every_same, analyze_numbers,
  expected_length,
}
use firemig.Demo.Sequence.Runs.{
  length-numbers, has-numbers_bounds, missing-numbers, missing_head, missing_last,
  out_of_order-numbers, run_of_order, every_same-eq, every_same_self, duplicates-numbers,
}

-- What an exact report says of the numbers observed.
abbrev pub AsExpected : List ℤ → ℤ → ℤ → Type 0
AsExpected observed first last =
    let report = analyze_numbers observed first last in
    (length observed ≡ expected_length first last)
    × (report.missing_numbers ≡ [])
    × (report.duplicate_numbers ≡ [])
    × (report.out_of_order_seq ≡ 0)

exact_of_run :
    (first last : ℤ) (observed : List ℤ)
    → observed ≡ expected first last
    → (analyze_numbers observed first last).exact_sequence ≡ true
unfolding analyze_numbers
exact_of_run first last observed e =
    rw e (rw ((==_iff _ _).1 refl, every_same_self (expected first last)) refl)

run_of_exact :
    (first last : ℤ) (observed : List ℤ)
    → (analyze_numbers observed first last).exact_sequence ≡ true
    → observed ≡ expected first last
unfolding analyze_numbers
run_of_exact first last observed h = ground (
  arith,
  ==_iff (length observed) (length (expected first last)),
  every_same-eq observed (expected first last),
)

AsExpected-expected :
    (first last : ℤ) (observed : List ℤ)
    → observed ≡ expected first last
    → AsExpected observed first last
unfolding analyze_numbers expected out_of_order duplicates missing every_same
AsExpected-expected first last observed e =
    let n = expected_length first last in
    rw e (
      length-numbers first 0 n,
      missing-numbers first n 0 n (omega arith),
      duplicates-numbers [] first 0 n (λ j _. refl),
      in_order n,
    )
  where
    in_order : (n : ℕ) → out_of_order (numbers first 0 n) ≡ 0
    in_order zero = refl
    in_order (suc n) = out_of_order-numbers first 0 n

-- A run with the right length and nothing missing begins where it should.
start_of_run :
    (start first : ℤ) (n : ℕ)
    → missing (numbers start 0 (suc n)) (numbers first 0 (suc n)) ≡ []
    → start ≡ first
unfolding numbers
start_of_run start first n h =
    let (low, _) =
      has-numbers_bounds start (first +ℤ pos 0) 0 (suc n)
        (missing_head (numbers start 0 (suc n)) (numbers first 1 n) (first +ℤ pos 0) h).0 in
    let (_, high) =
      has-numbers_bounds start (first +ℤ pos (0 + n)) 0 (suc n)
        (missing_last (numbers start 0 (suc n)) first 0 n h) in
    eq_of_parts start first (omega (arith, +ℤ_parts))

run_of_expected :
    (first last : ℤ) (observed : List ℤ)
    → AsExpected observed first last
    → observed ≡ expected first last
unfolding analyze_numbers expected out_of_order numbers missing
run_of_expected first last [] h = let (same, _, _, _) = h in rw (← same) refl
run_of_expected first last (a ∷ rest) h =
    let (same, none_missing, _, ordered) = h in
    let a0 : a +ℤ pos 0 ≡ a = eq_of_parts _ _ (omega (arith, +ℤ_parts)) in
    let tail : rest ≡ numbers a 1 (length rest) = run_of_order a 0 rest (rw a0 ordered) in
    let run : a ∷ rest ≡ numbers a 0 (suc (length rest)) = rw a0 (ap (λ l. a ∷ l) tail) in
    let gone : missing (numbers a 0 (suc (length rest))) (numbers first 0 (suc (length rest)))
        ≡ [] =
      subst (λ l. missing l (numbers first 0 (suc (length rest))) ≡ []) run
        (subst (λ n. missing (a ∷ rest) (numbers first 0 n) ≡ []) (sym same) none_missing) in
    run
    ∙ ap (λ s. numbers s 0 (suc (length rest))) (start_of_run a first (length rest) gone)
    ∙ ap (λ n. numbers first 0 n) same

-- The sequence is reported as exact if and only if as many numbers were observed as expected, none
-- of those expected is missing, none was observed twice, and each is the successor of the one
-- before it; and then the numbers observed are those expected, in their order.
pub exact_iff :
    (first last : ℤ) (observed : List ℤ)
    → (((analyze_numbers observed first last).exact_sequence ≡ true)
        ↔ AsExpected observed first last)
      × (((analyze_numbers observed first last).exact_sequence ≡ true)
          ↔ (observed ≡ expected first last))
exact_iff first last observed = (
  (
    λ h. AsExpected-expected first last observed (run_of_exact first last observed h),
    λ h. exact_of_run first last observed (run_of_expected first last observed h),
  ),
  (run_of_exact first last observed, exact_of_run first last observed),
)
