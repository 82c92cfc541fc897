-- ===== src/Acl/Defs.antt =====
-- ptp/ptpd2/dep/ipv4_acl.c and ipv4_acl.h: the access control lists and the match of an address.
-- A table of masks is the list of its `numEntries` entries.
use sfptpd.Prelude.{
  ℕ, zero, ◌+◌, ◌%◌, Bool, true, false, not, ◌&&◌, Option, none, some, List, [], ◌∷◌, map, ◌==◌,
  if◌then◌else◌, bit_and, ℤ, pos, negsuc, ltb_ℤ,
}

-- `PtpdAclOrder`.
pub data AclOrder : Type 0 where
  allow_deny deny_allow : AclOrder

-- `AclEntry`.
pub record AclEntry : Type 0 where
  pub network : ℕ
  pub bitmask : ℕ
  pub netmask : ℕ
  pub hit_count : ℕ

-- `Ipv4AccessList`. A table is `none` where the pointer is NULL.
pub record AccessList : Type 0 where
  pub allow_table : Option (List AclEntry)
  pub deny_table : Option (List AclEntry)
  pub processing_order : AclOrder
  pub passed_counter : ℕ
  pub dropped_counter : ℕ

-- A `uint32_t` counter, one more.
abbrev pub increment : ℕ → ℕ
increment n = (n + 1) % 4294967296

-- The test of an entry in `matchAddress`.
abbrev pub entry_matches : ℕ → AclEntry → Bool
entry_matches addr e = bit_and e.bitmask addr == e.network

-- The loop of `matchAddress`: whether an entry matches, and the entries afterwards.
unfoldable pub match_entries : ℕ → List AclEntry → Bool × List AclEntry
match_entries addr [] = (false, [])
match_entries addr (e ∷ es) =
    let rest = match_entries addr es in
    if entry_matches addr e
    then (true, record e { hit_count = increment e.hit_count } ∷ es)
    else (rest.0, e ∷ rest.1)

-- `matchAddress`.
unfoldable pub match_address : ℕ → Option (List AclEntry) → ℤ × Option (List AclEntry)
unfolding match_entries
match_address addr none = (negsuc 0, none)
match_address addr (some []) = (negsuc 0, some [])
match_address addr (some (e ∷ es)) =
    let (found, es') = match_entries addr (e ∷ es) in (if found then pos 1 else pos 0, some es')

-- The decision of `matchIpv4AccessList`.
abbrev pub decide_match : AclOrder → Bool → Bool → ℤ
decide_match allow_deny match_allow match_deny =
    if not match_allow then pos 0 else if match_deny then pos 0 else pos 1
decide_match deny_allow match_allow match_deny =
    if match_deny && not match_allow then pos 0 else pos 1

-- The end of `matchIpv4AccessList`, which counts the packet.
abbrev pub count_packet : ℤ → AccessList → ℤ × AccessList
count_packet (pos zero) acl =
    (pos 0, record acl { dropped_counter = increment acl.dropped_counter })
count_packet ret acl = (ret, record acl { passed_counter = increment acl.passed_counter })

-- `matchIpv4AccessList`. `none` is an access through NULL: where `acl` is NULL, the code sets the
-- answer to 1 and then counts the packet in `acl`.
unfoldable pub match_access_list : Option AccessList → ℕ → Option (ℤ × AccessList)
unfolding match_address
match_access_list none addr = none
match_access_list (some acl) addr =
    let (allow, allow_table) = match_address addr acl.allow_table in
    let (deny, deny_table) = match_address addr acl.deny_table in
    some (
      count_packet (decide_match acl.processing_order (ltb_ℤ (pos 0) allow) (ltb_ℤ (pos 0) deny))
        (record acl { allow_table = allow_table; deny_table = deny_table }))

abbrev pub clear_table : Option (List AclEntry) → Option (List AclEntry)
clear_table none = none
clear_table (some es) =
    some (map {A = AclEntry} {B = AclEntry} (λ e. record e { hit_count = 0 }) es)

-- `clearMaskTableCounters` and `clearIpv4AccessListCounters`.
unfoldable pub clear_counters : Option AccessList → Option AccessList
clear_counters none = none
clear_counters (some acl) = some (record acl {
  passed_counter = 0;
  dropped_counter = 0;
  allow_table = clear_table acl.allow_table;
  deny_table = clear_table acl.deny_table;
})
