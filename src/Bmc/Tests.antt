-- ===== src/Bmc/Tests.antt =====
-- Foreign masters and the theorems on the best master clock algorithm at them.
use mathlib.Core.Path.{subst}
use sfptpd.Prelude.{
  ℕ, zero, suc, ◌-◌, ◌≡◌, inl, inr, refl, true, false, Option, some, none, [], ◌∷◌, get_elem?, pos,
  leb, not, ◌==◌, ◌-ℤ◌, ◌+ℤ◌, arith,
}
use sfptpd.Time.Defs.{time_is_greater_or_equal, time_subtract, normalise}
use sfptpd.Words.{s32, u32, asr_32, int64, scale, quot}
use sfptpd.Foreign.Defs.{ForeignMaster, DataSet, same_port, insert}
use sfptpd.Foreign.Find.{IsWellFormed, IsNotOf}
use sfptpd.Foreign.Tests.{at_time, header_of, announce_of, multicast, master, table}
use sfptpd.Bmc.Defs.{
  TimeFloats, Context, is_qualified, qualification, data_set_comparison, best_record,
}
use sfptpd.Bmc.Compare.{comparison_opp}
use sfptpd.Bmc.Rounds.{IsBest}
use sfptpd.Bmc.Best.{best_record-IsBest}
use sfptpd.Bmc.Delete.{delete_unselected}
use sfptpd.Bmc.ClockTests.{opts, clock}
use sfptpd.Bmc.Outcome.{search, HasChosen, bmc-HasParent}
use sfptpd.Bmc.Full.{NoneQualifiedBut, insert-after_delete}

-- Whole numbers in place of floating-point ones, all of them positive.
abbrev whole : TimeFloats
whole = record {
  Time = ℕ;
  is_nonzero = λ a. not (a == 0);
  sub = λ a b. a - b;
  abs = λ a. a;
  ge = λ a b. leb b a;
}

-- No discriminator, and a window that opened at the time given.
abbrev context : ℕ → Context whole
context n = record {
  threshold = at_time n;
  discriminator_offset = 0;
  discriminator_threshold = 0;
  prefer_utc_valid = false;
  parent_clock_identity = 25;
}

comparison_opp_example :
    data_set_comparison false 25
      (header_of 20)
      (announce_of 20 128)
      (header_of 30)
      (announce_of 30 64)
    ≡ pos 0
      -ℤ data_set_comparison false 25
          (header_of 30)
          (announce_of 30 64)
          (header_of 20)
          (announce_of 20 128)
comparison_opp_example =
    comparison_opp false 25 (header_of 20) (announce_of 20 128) (header_of 30) (announce_of 30 64)
      (inl (λ e. omega (arith, e)))

-- The time 10 s is in the window that opened at 5 s, and not in the one that opened at 11 s.
ten_after_five : time_is_greater_or_equal (at_time 10) (at_time 5) ≡ true
unfolding time_is_greater_or_equal time_subtract normalise ◌-ℤ◌ s32 u32 asr_32 int64 scale quot ◌+ℤ◌
ten_after_five = refl

ten_before_eleven : time_is_greater_or_equal (at_time 10) (at_time 11) ≡ false
unfolding time_is_greater_or_equal time_subtract normalise ◌-ℤ◌ s32 u32 asr_32 int64 scale quot ◌+ℤ◌
ten_before_eleven = refl

best_of_two : best_record whole (context 5) (master 20 128 ∷ master 30 64 ∷ []) ≡ some 1
unfolding best_record data_set_comparison
best_of_two = rw ten_after_five refl

second-qualified : is_qualified (qualification whole (context 5) (master 30 64)) ≡ true
unfolding qualification
second-qualified = rw ten_after_five refl

best_record-IsBest_example :
    (besti : ℕ) × (best : ForeignMaster ℕ) × (best_record whole
        (context 5)
        (master 20 128 ∷ master 30 64 ∷ [])
      ≡ some besti)
    × (get_elem? (master 20 128 ∷ master 30 64 ∷ []) besti ≡ some best)
    × IsBest whole (context 5) best (master 20 128 ∷ master 30 64 ∷ [])
best_record-IsBest_example =
    best_record-IsBest whole (context 5) (master 20 128 ∷ master 30 64 ∷ []) 1 (master 30 64)
      ((λ e. omega (arith, e), tt), (tt, tt)) refl second-qualified

late : is_qualified (qualification whole (context 11) (master 30 64)) ≡ false
unfolding qualification
late = rw ten_before_eleven refl

-- A full table where the second master has sent one announcement only.
abbrev once : ForeignMaster ℕ
once = record (master 30 64) { announce_times_count = 1 }

abbrev full : DataSet ℕ
full = record table { records = master 20 128 ∷ once ∷ [] }

full-IsWellFormed : IsWellFormed full
full-IsWellFormed = record {
  length_records = refl;
  max_pos = omega arith;
  number_le = omega arith;
  write_lt = omega arith;
  write_eq = λ h. absurd (omega (arith, h));
  best_le = omega arith;
}

once-not_qualified : is_qualified (qualification whole (context 5) once) ≡ false
unfolding qualification
once-not_qualified = refl

full-NoneQualifiedBut : NoneQualifiedBut whole (context 5) full
full-NoneQualifiedBut zero r e = inr refl
full-NoneQualifiedBut (suc zero) r e = inl (subst_qualified once r e once-not_qualified)
  where
    subst_qualified :
        (q r : ForeignMaster ℕ)
        → some q ≡ some r
        → is_qualified (qualification whole (context 5) q) ≡ false
        → is_qualified (qualification whole (context 5) r) ≡ false
    subst_qualified q r e h = cc
full-NoneQualifiedBut (suc (suc i)) r e = cc

other_port :
    (q r : ForeignMaster ℕ)
    → some q ≡ some r
    → same_port (header_of 40).source_port_identity q.port_identity ≡ false
    → same_port (header_of 40).source_port_identity r.port_identity ≡ false
other_port q r e h =
    subst
      (λ (o : Option (ForeignMaster ℕ)). elim o [
        | none ↦ ⊥
        | some m ↦ same_port (header_of 40).source_port_identity m.port_identity ≡ false
      ])
      e h

full-IsNotOf : (i : ℕ) → IsNotOf (header_of 40).source_port_identity full.records i
full-IsNotOf zero r e = other_port (master 20 128) r e refl
full-IsNotOf (suc zero) r e = other_port once r e refl
full-IsNotOf (suc (suc i)) r e = cc

insert-after_delete_example :
    (ds' : DataSet ℕ) × (delete_unselected whole (context 5) full ≡ some ds')
    × (ds'.write_index ≡ 2)
    × (insert (at_time 14) (header_of 40) (announce_of 40 64) multicast [] ds' ≡ none)
insert-after_delete_example =
    insert-after_delete whole (context 5) full (at_time 14) (header_of 40) (announce_of 40 64)
      multicast [] full-IsWellFormed refl full-NoneQualifiedBut full-IsNotOf

-- The time 10 s is in the window that opened at 7 s, too.
ten_after_seven : time_is_greater_or_equal (at_time 10) (at_time 7) ≡ true
unfolding time_is_greater_or_equal time_subtract normalise ◌-ℤ◌ s32 u32 asr_32 int64 scale quot ◌+ℤ◌
ten_after_seven = refl

later_first : is_qualified (qualification whole (context 7) (master 20 128)) ≡ true
unfolding qualification
later_first = rw ten_after_seven refl

later_second : is_qualified (qualification whole (context 7) (master 30 64)) ≡ true
unfolding qualification
later_second = rw ten_after_seven refl

same_record :
    (r q : ForeignMaster ℕ)
    → some r ≡ some q
    → is_qualified (qualification whole (context 7) r) ≡ true
    → is_qualified (qualification whole (context 7) q) ≡ true
same_record r q e h = cc

still_qualified :
    (j : ℕ) (q : ForeignMaster ℕ)
    → get_elem? table.records j ≡ some q
    → is_qualified (qualification whole (context 5) q) ≡ true
    → is_qualified (qualification whole (context 7) q) ≡ true
still_qualified zero q e h = same_record (master 20 128) q e later_first
still_qualified (suc zero) q e h = same_record (master 30 64) q e later_second
still_qualified (suc (suc j)) q e h = cc

bmc-HasParent_example :
    (best : ForeignMaster ℕ) × IsBest whole
      (search whole 0 0 (at_time 5) (at_time 7) opts (header_of 0) (announce_of 0 0) table clock)
      best
      table.records
    × HasChosen whole 0 0
        (at_time 5)
        (at_time 7)
        opts
        (header_of 0)
        (announce_of 0 0)
        table
        clock
        best
bmc-HasParent_example =
    bmc-HasParent whole 0 0 (at_time 5) (at_time 7) opts (header_of 0) (announce_of 0 0) table clock
      1 (master 30 64) (omega arith) refl ((λ e. omega (arith, e), tt), (tt, tt)) refl
      second-qualified still_qualified
