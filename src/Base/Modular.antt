-- ===== src/Base/Modular.antt =====
-- rmf_utils/Modular.hpp, which the schedule and the blockade moderator use and do not contain:
-- comparison of two unsigned 64-bit counters that may have wrapped. Its documented behaviour is
-- that the comparison is right while the values lie less than half of the range apart; the
-- development relies on that for pairs between which no wrap lies.
use Prim.Native.Nat.{ℕ, ◌+◌, ◌-◌, ◌^◌, ◌%◌, ◌<◌}
use mathlib.Core.Path.{◌≡◌}
use mathlib.Core.Bool.{Bool, ◌&&◌}
use native.Mathlib.Omega.{arith}
use rmf_traffic.Base.Tests.{ltb, leb}

-- The values of a uint64_t, and half of them.
abbrev pub word : ℕ
word = 2 ^ 64

abbrev pub half : ℕ
half = 2 ^ 63

pub record Modular : Type 0 where
  pub less_than : ℕ → ℕ → Bool
  pub less_than_or_equal : ℕ → ℕ → Bool
  pub less_than_near :
      (a b : ℕ) → a < word → b < word → a < b + half → b < a + half → less_than a b ≡ ltb a b
  pub less_than_or_equal_near :
      (a b : ℕ)
      → a < word
      → b < word
      → a < b + half
      → b < a + half
      → less_than_or_equal a b ≡ leb a b

module _ (m : Modular) where
  -- Both values in the lower half: there the modular order is the order of the numbers.
  pub less_than-ltb : (a b : ℕ) → a < half → b < half → m.less_than a b ≡ ltb a b
  less_than-ltb a b p q =
      m.less_than_near a b (omega arith) (omega arith) (omega arith) (omega arith)

  pub less_than_or_equal-leb : (a b : ℕ) → a < half → b < half → m.less_than_or_equal a b ≡ leb a b
  less_than_or_equal-leb a b p q =
      m.less_than_or_equal_near a b (omega arith) (omega arith) (omega arith) (omega arith)

-- A comparison with the documented behaviour: by the distance from the first value to the second.
abbrev pub distance : ℕ → ℕ → ℕ
distance a b = (b + word - a) % word

abbrev pub modular_less : ℕ → ℕ → Bool
modular_less a b = ltb 0 (distance a b) && ltb (distance a b) half

abbrev pub modular_leq : ℕ → ℕ → Bool
modular_leq a b = ltb (distance a b) half

pub modular_less-near :
    (a b : ℕ) → a < word → b < word → a < b + half → b < a + half → modular_less a b ≡ ltb a b
modular_less-near a b p q r s = ground arith

pub modular_leq-near :
    (a b : ℕ) → a < word → b < word → a < b + half → b < a + half → modular_leq a b ≡ leb a b
modular_leq-near a b p q r s = ground arith

abbrev pub modular : Modular
modular = record {
  less_than = modular_less;
  less_than_or_equal = modular_leq;
  less_than_near = modular_less-near;
  less_than_or_equal_near = modular_leq-near;
}
