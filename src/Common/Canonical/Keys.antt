-- ===== src/Common/Canonical/Keys.antt =====
-- The order of keys in packages/common/src/runtime/hash.ts.
use firemig.Prelude.{
  ℕ, ◌≡◌, ◌≢◌, inl, inr, refl, true, false, List, [], ◌∷◌, arith, ◌==◌, ==_iff, Bool-cases,
}
use firemig.Common.Canonical.{before}

pub before_asym : (p q : List ℕ) → before p q ≡ true → before q p ≡ false
unfolding before
before_asym [] [] h = refl
before_asym [] (b ∷ q) h = refl
before_asym (a ∷ p) [] h = absurd (cc)
before_asym (a ∷ p) (b ∷ q) h = ground (arith, h, before_asym p q)

pub before_trans : (p q r : List ℕ) → before p q ≡ true → before q r ≡ true → before p r ≡ true
unfolding before
before_trans [] [] r h k = absurd (cc)
before_trans [] (b ∷ q) [] h k = absurd (cc)
before_trans [] (b ∷ q) (c ∷ r) h k = refl
before_trans (a ∷ p) [] r h k = absurd (cc)
before_trans (a ∷ p) (b ∷ q) [] h k = absurd (cc)
before_trans (a ∷ p) (b ∷ q) (c ∷ r) h k = ground (arith, h, k, before_trans p q r)

-- Keys that differ are in one order or the other.
pub before_total : (p q : List ℕ) → p ≢ q → before p q ≡ false → before q p ≡ true
unfolding before
before_total [] [] differ h = absurd (differ refl)
before_total [] (b ∷ q) differ h = absurd (cc)
before_total (a ∷ p) [] differ h = refl
before_total (a ∷ p) (b ∷ q) differ h = elim (Bool-cases (a == b)) [
  | inl same ↦
      let e : a ≡ b = (==_iff a b).0 same in
      let later : before q p ≡ true =
        before_total p q (λ rest. differ (cc)) (ground (arith, h, same)) in
      ground (arith, e, later)
  | inr other ↦ ground (arith, h, other)
]
