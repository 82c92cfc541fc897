-- ===== src/Bmc/Interval.antt =====
-- ptp/ptpd2/bmc.c: `ptpd_update_announce_interval`, which follows the longest interval that the
-- foreign masters announce.
use sfptpd.Prelude.{
  ℕ, zero, suc, ◌≡◌, ◌≢◌, Bool, true, not, ◌&&◌, ◌||◌, some, List, [], ◌∷◌, get_elem?,
  if◌then◌else◌, ℤ, pos, ltb_ℤ, ◌≤ℤ◌, arith, sym,
}
use mathlib.Core.Path.{subst}
use sfptpd.Foreign.Defs.{ForeignMaster}
use sfptpd.Bmc.Clock.{Clock, saturate_interval}
use sfptpd.Bmc.Decision.{IsInRange}

-- The comparison with PTPD_MESSAGE_INTERVAL_UNDEFINED.
abbrev is_defined : ℤ → Bool
is_defined i = ltb_ℤ i (pos 127) || ltb_ℤ (pos 127) i

abbrev interval_of : {Time : Type 0} → ForeignMaster Time → ℤ
interval_of r = r.header.log_message_interval

-- One round of the loop, for one announced interval.
unfoldable pub longer : ℤ → ℤ → ℤ
longer interval longest =
    if is_defined interval && (not (is_defined longest) || ltb_ℤ longest interval)
    then interval
    else longest

module _ {Time : Type 0} where
  -- The loop over the records in use.
  unfoldable pub longest_from : List (ForeignMaster Time) → ℤ → ℤ
  unfolding longer
  longest_from [] longest = longest
  longest_from (r ∷ rs) longest = longest_from rs (longer (interval_of r) longest)

  -- `ptpd_update_announce_interval`; `announce_interval` is that of the options.
  unfoldable pub update_announce_interval : List (ForeignMaster Time) → ℤ → Clock → Clock
  unfolding longest_from saturate_interval
  update_announce_interval records announce_interval c =
      let longest = longest_from records (pos 127) in
      record c {
        log_announce_interval =
            if is_defined longest then saturate_interval longest else announce_interval;
      }

longer-le : (i l : ℤ) → l ≢ pos 127 → (l ≤ℤ longer i l) × (longer i l ≢ pos 127)
unfolding longer
longer-le i l h = (ground arith, ground arith)

longer_this : (i l : ℤ) → i ≢ pos 127 → (i ≤ℤ longer i l) × (longer i l ≢ pos 127)
unfolding longer
longer_this i l h = (ground arith, ground arith)

saturate_mono : (i j : ℤ) → i ≤ℤ j → saturate_interval i ≤ℤ saturate_interval j
unfolding saturate_interval
saturate_mono i j h = ground arith

saturate_interval-IsInRange : (i : ℤ) → IsInRange (saturate_interval i)
unfolding saturate_interval
saturate_interval-IsInRange i = ground arith

defined_of : (i : ℤ) → i ≢ pos 127 → is_defined i ≡ true
defined_of i h = ground arith

le_trans : (a b c : ℤ) → a ≤ℤ b → b ≤ℤ c → a ≤ℤ c
le_trans a b c h k = omega arith

module _ {Time : Type 0} where
  longest_from-le :
      (rs : List (ForeignMaster Time)) (l : ℤ)
      → l ≢ pos 127
      → (l ≤ℤ longest_from rs l) × (longest_from rs l ≢ pos 127)
  unfolding longest_from
  longest_from-le [] l h = (omega arith, h)
  longest_from-le (r ∷ rs) l h =
      let (a, b) = longer-le (interval_of r) l h in
      let (x, y) = longest_from-le rs (longer (interval_of r) l) b in (le_trans l _ _ a x, y)

  some_eq : (r q : ForeignMaster Time) → some q ≡ some r → r ≡ q
  some_eq r q e = cc

  longest_from_each :
      (rs : List (ForeignMaster Time)) (l : ℤ) (k : ℕ) (r : ForeignMaster Time)
      → get_elem? rs k ≡ some r
      → interval_of r ≢ pos 127
      → (interval_of r ≤ℤ longest_from rs l) × (longest_from rs l ≢ pos 127)
  unfolding longest_from
  longest_from_each [] l k r e h = cc
  longest_from_each (q ∷ rs) l zero r e h =
      let (a, b) = longer_this (interval_of r) l h in
      let (x, y) = longest_from-le rs (longer (interval_of r) l) b in
      subst
        (λ (m : ForeignMaster Time).
          (interval_of r ≤ℤ longest_from rs (longer (interval_of m) l))
          × (longest_from rs (longer (interval_of m) l) ≢ pos 127))
        (some_eq r q e) (le_trans (interval_of r) _ _ a x, y)
  longest_from_each (q ∷ rs) l (suc k) r e h = longest_from_each rs _ k r e h

  -- Where a record in use announces a defined interval, the clock's log interval of announcements is
  -- no shorter than that one, within the limits from -4 to 4, and lies in those limits.
  pub update_announce_interval_lem :
      (records : List (ForeignMaster Time)) (announce_interval : ℤ) (c : Clock) (k : ℕ)
      (r : ForeignMaster Time)
      → get_elem? records k ≡ some r
      → r.header.log_message_interval ≢ pos 127
      → (saturate_interval r.header.log_message_interval
          ≤ℤ (update_announce_interval records announce_interval c).log_announce_interval)
        × IsInRange (update_announce_interval records announce_interval c).log_announce_interval
  unfolding update_announce_interval
  update_announce_interval_lem records announce_interval c k r e h =
      let (le, ne) = longest_from_each records (pos 127) k r e h in
      let longest = longest_from records (pos 127) in
      subst
        (λ (b : Bool).
          (saturate_interval r.header.log_message_interval
            ≤ℤ (if b then saturate_interval longest else announce_interval))
          × IsInRange (if b then saturate_interval longest else announce_interval))
        (sym (defined_of longest ne))
        (
          saturate_mono r.header.log_message_interval longest le,
          saturate_interval-IsInRange longest,
        )
