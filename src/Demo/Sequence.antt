-- ===== src/Demo/Sequence.antt =====
-- packages/demo/src/validation/sequence.ts: the numbers observed against those expected.
pub mod Runs
pub mod Exact
use firemig.Prelude.{
  ℕ, zero, suc, ◌+◌, ◌-◌, Bool, true, false, not, ◌&&◌, ◌||◌, List, [], ◌∷◌, map, length, ◌==◌,
  if◌then◌else◌,
}
use firemig.Prelude.Integers.{ℤ, pos, pos_part, neg_part, ◌+ℤ◌, eqb_ℤ}
use firemig.Demo.Events.{CounterEvent}

pub record SequenceAnalysis : Type 0 where
  pub missing_numbers : List ℤ
  pub duplicate_numbers : List ℤ
  pub observed_sequence : List ℤ
  pub duplicate_seq : ℕ
  pub out_of_order_seq : ℕ
  pub exact_sequence : Bool

-- `seen.has(value)`
unfoldable pub has : List ℤ → ℤ → Bool
has [] value = false
has (n ∷ rest) value = eqb_ℤ n value || has rest value

-- The first loop: each number that was seen before.
unfoldable pub duplicates : List ℤ → List ℤ → List ℤ
unfolding has
duplicates seen [] = []
duplicates seen (n ∷ rest) =
    let later = duplicates (n ∷ seen) rest in if has seen n then n ∷ later else later

-- `expectedEnd - expectedStart + 1`, which is 0 as a length if it is negative.
unfoldable pub expected_length : ℤ → ℤ → ℕ
expected_length first last = (pos_part last + neg_part first + 1) - (neg_part last + pos_part first)

-- `Array.from({ length }, (_, index) => first + index)`, from an index on.
unfoldable pub numbers : ℤ → ℕ → ℕ → List ℤ
numbers first index zero = []
numbers first index (suc n) = (first +ℤ pos index) ∷ numbers first (index + 1) n

unfoldable pub expected : ℤ → ℤ → List ℤ
unfolding numbers expected_length
expected first last = numbers first 0 (expected_length first last)

-- How often a number is not the successor of the one before it.
unfoldable pub out_of_order_from : ℤ → List ℤ → ℕ
out_of_order_from before [] = 0
out_of_order_from before (n ∷ rest) =
    (if eqb_ℤ n (before +ℤ pos 1) then 0 else 1) + out_of_order_from n rest

unfoldable pub out_of_order : List ℤ → ℕ
unfolding out_of_order_from
out_of_order [] = 0
out_of_order (n ∷ rest) = out_of_order_from n rest

unfoldable pub missing : List ℤ → List ℤ → List ℤ
unfolding has
missing seen [] = []
missing seen (n ∷ rest) = let later = missing seen rest in if has seen n then later else n ∷ later

-- `observed.every((value, index) => value === expected[index])`; past the end stands undefined.
unfoldable pub every_same : List ℤ → List ℤ → Bool
every_same [] wanted = true
every_same (n ∷ rest) [] = false
every_same (n ∷ rest) (m ∷ wanted) = eqb_ℤ n m && every_same rest wanted

unfoldable pub analyze_numbers : List ℤ → ℤ → ℤ → SequenceAnalysis
unfolding duplicates expected out_of_order missing every_same
analyze_numbers observed first last =
    let wanted = expected first last in
    let twice = duplicates [] observed in
    record {
      missing_numbers = missing observed wanted;
      duplicate_numbers = twice;
      observed_sequence = observed;
      duplicate_seq = length twice;
      out_of_order_seq = out_of_order observed;
      exact_sequence = length observed == length wanted && every_same observed wanted;
    }

abbrev pub seq_of : CounterEvent → ℤ
seq_of event = event.seq

unfoldable pub analyze_sequence : List CounterEvent → ℤ → ℤ → SequenceAnalysis
unfolding analyze_numbers
analyze_sequence events = analyze_numbers (map seq_of events)
