-- ===== src/Bic/Tests.antt =====
-- Three instances under the default policy, and the theorems at them.
use sfptpd.Prelude.{
  ℕ, ◌+◌, ◌≡◌, refl, true, false, some, List, [], ◌∷◌, arith, get_elem?, ltb, pos, ◌≤ℤ◌,
}
use sfptpd.Sorting.{insertion, insertion-IsSorting}
use sfptpd.Bic.Defs.{
  Floats, Instance, State, slave, faulty, locked, apply_rule, select, default_rules,
  ext_constraint_priority,
}
use sfptpd.Orders.{ltb_order}
use sfptpd.Bic.Order.{NoNan}
use sfptpd.Bic.Choose.{refs, compar, fill_ranks, rank_sorted, choose, select_instance}
use sfptpd.Bic.Best.{AtMostOne, IsBest, choose-IsBest}
use sfptpd.Bic.Policy.{choose-constraints}
use sfptpd.Bic.Manual.{choose-select_instance}

-- Whole numbers of nanoseconds in place of floating-point ones.
abbrev pub whole : Floats
whole = record {
  LongDouble = ℕ;
  Double = ℕ;
  add = λ a b. a + b;
  narrow = λ a. a;
  lt = ltb;
  lt_long = ltb;
}

pub whole-NoNan : NoNan whole
whole-NoNan = record { lt_order = ltb_order; lt_long_order = ltb_order }

abbrev pub instance_of : State → ℕ → ℕ → ℕ → Instance whole
instance_of state constraints priority accuracy = record {
  status = record {
    state = state;
    alarms = 0;
    constraints = constraints;
    user_priority = priority;
    master = record {
      clock_class = locked;
      accuracy = accuracy;
      allan_variance = 0;
      steps_removed = 1;
    };
    local_accuracy = 10;
    clustering_score = pos 0;
  };
  selected = false;
  rank = 0;
}

abbrev pub ntp : Instance whole
ntp = instance_of slave 0 128 5000

abbrev pub ptp : Instance whole
ptp = instance_of slave 0 128 100

abbrev pub pps : Instance whole
pps = instance_of faulty 0 128 20

abbrev array : List (Instance whole)
array = ntp ∷ ptp ∷ pps ∷ []

array_free : (i : ℕ) (r : Instance whole) → get_elem? array i ≡ some r → r.selected ≡ false
array_free i r e = ground arith

-- The instance with the best accuracy of those in the slave state is chosen, and ranked first.
choose-array :
    choose whole insertion default_rules array
    ≡ some
        (some 1, record ntp { rank = 2 } ∷ record ptp { rank = 1 } ∷ record pps { rank = 3 } ∷ [])
unfolding choose rank_sorted fill_ranks refs compar insertion select apply_rule
choose-array = refl

array_one : AtMostOne whole array
array_one i j r s ei ej hi hj = cc (array_free i r ei)

choose-IsBest_example :
    IsBest whole default_rules array (choose whole insertion default_rules array)
choose-IsBest_example =
    choose-IsBest whole whole-NoNan insertion insertion-IsSorting default_rules refl array array_one
      (omega arith)

-- `pps` is selected by hand, though it is faulty.
abbrev by_hand : List (Instance whole)
by_hand = ntp ∷ ptp ∷ record pps { selected = true } ∷ []

by_hand_at : (i : ℕ) (r : Instance whole) → get_elem? by_hand i ≡ some r → r.selected ≡ true → i ≡ 2
by_hand_at i r e h = ground arith

choose-constraints_example :
    (best : ℕ) × (q : Instance whole) × (out : List (Instance whole)) × (choose whole insertion
        default_rules array
      ≡ some (some best, out))
    × (get_elem? array best ≡ some q)
    × (ext_constraint_priority q.status.constraints
        ≤ℤ ext_constraint_priority pps.status.constraints)
choose-constraints_example =
    choose-constraints whole whole-NoNan insertion insertion-IsSorting _ refl array array_free 2 pps
      refl

choose-select_instance_example :
    (out : List (Instance whole)) × (choose whole insertion default_rules
        (select_instance whole by_hand (some 0))
      ≡ some (some 0, out))
choose-select_instance_example =
    choose-select_instance whole whole-NoNan insertion insertion-IsSorting _ refl by_hand 0 ntp refl
