-- ===== src/Acl/Check.antt =====
-- ptp/ptpd2/protocol.c: `checkACL` and `checkACLmask`. A bitmap is the list of its bits from the
-- lowest, and a type of access control list is the place of its bit. Logging is left out.
use sfptpd.Prelude.{
  ℕ, zero, suc, Bool, true, false, not, Option, none, some, List, [], ◌∷◌, get_elem?, set,
  if◌then◌else◌, ◌>>=◌, ℤ, pos,
}
use sfptpd.Acl.Defs.{AccessList, match_access_list}

-- The lists of `PtpInterface.transport`, three objects, `none` where the pointer is NULL.
pub record AccessLists : Type 0 where
  pub management_acl : Option AccessList
  pub timing_acl : Option AccessList
  pub monitoring_acl : Option AccessList

-- The options of `InterfaceOpts` that enable them.
pub record AclOpts : Type 0 where
  pub management_acl_enabled : Bool
  pub timing_acl_enabled : Bool
  pub monitoring_acl_enabled : Bool

-- What `checkACL` reads and writes: the lists, `*checked` and `*passed`.
pub record Checks : Type 0 where
  pub lists : AccessLists
  pub checked : List Bool
  pub passed : List Bool

abbrev pub get_bit : List Bool → ℕ → Bool
get_bit bits i = elim (get_elem? bits i) [ none ↦ false | some b ↦ b ]

-- A known type that the options do not enable.
abbrev pub is_disabled : AclOpts → ℕ → Bool
is_disabled opts zero = not opts.management_acl_enabled
is_disabled opts (suc zero) = not opts.timing_acl_enabled
is_disabled opts (suc (suc zero)) = not opts.monitoring_acl_enabled
is_disabled opts (suc (suc (suc i))) = false

-- The list of a type, none where the type is not known.
abbrev pub list_of : AccessLists → ℕ → Option AccessList
list_of lists zero = lists.management_acl
list_of lists (suc zero) = lists.timing_acl
list_of lists (suc (suc zero)) = lists.monitoring_acl
list_of lists (suc (suc (suc i))) = none

-- What the pointer to the list of a type points to, replaced.
abbrev pub put_list : AccessLists → ℕ → AccessList → AccessLists
put_list lists zero acl = record lists { management_acl = some acl }
put_list lists (suc zero) acl = record lists { timing_acl = some acl }
put_list lists (suc (suc zero)) acl = record lists { monitoring_acl = some acl }
put_list lists (suc (suc (suc i))) acl = lists

abbrev pub is_zero : ℤ → Bool
is_zero (pos zero) = true
is_zero other = false

-- The label `result` of `checkACL`.
abbrev pub note_result : ℕ → Bool → Checks → Bool × Checks
note_result i pass s = (
  pass,
  record s {
    checked = set s.checked i true;
    passed = if pass then set s.passed i true else s.passed;
  },
)

-- `checkACL` with the bit `i` as the type.
unfoldable pub check_acl : AclOpts → ℕ → ℕ → Checks → Option (Bool × Checks)
unfolding match_access_list
check_acl opts addr i s =
    if get_bit s.checked i
    then some (get_bit s.passed i, s)
    else if is_disabled opts i
    then some (note_result i true s)
    else elim (list_of s.lists i) [
      | none ↦ some (false, s)
      | some acl ↦ do
        (ret, acl') ← match_access_list (some acl) addr
        some (note_result i (not (is_zero ret)) (record s { lists = put_list s.lists i acl' }))
    ]

-- The loop of `checkACLmask`, with the bits of the mask from `i` on.
unfoldable pub check_mask_from : AclOpts → ℕ → ℕ → List Bool → Checks → Option (Bool × Checks)
unfolding check_acl
check_mask_from opts addr i [] s = some (true, s)
check_mask_from opts addr i (false ∷ mask) s = check_mask_from opts addr (suc i) mask s
check_mask_from opts addr i (true ∷ mask) s = do
  (pass, s') ← check_acl opts addr i s
  elim pass [ true ↦ check_mask_from opts addr (suc i) mask s' | false ↦ some (false, s') ]

-- `checkACLmask`.
unfoldable pub check_acl_mask : AclOpts → ℕ → List Bool → Checks → Option (Bool × Checks)
unfolding check_mask_from
check_acl_mask opts addr mask s = check_mask_from opts addr 0 mask s
