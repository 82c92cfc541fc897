-- ===== src/Acl/Matching.antt =====
-- What `matchIpv4AccessList` of ptp/ptpd2/dep/ipv4_acl.c answers.
use sfptpd.Prelude.{
  ℕ, ◌≡◌, refl, arith, Bool, false, not, ◌&&◌, ◌||◌, Option, none, some, List, [], ◌∷◌,
  if◌then◌else◌, pos, ltb_ℤ,
}
use sfptpd.Acl.Defs.{
  allow_deny, deny_allow, AclEntry, AccessList, increment, entry_matches, match_entries,
  match_address, match_access_list,
}

-- An entry of the table matches.
abbrev any_matches : ℕ → List AclEntry → Bool
any_matches addr [] = false
any_matches addr (e ∷ es) = entry_matches addr e || any_matches addr es

abbrev pub in_table : ℕ → Option (List AclEntry) → Bool
in_table addr none = false
in_table addr (some es) = any_matches addr es

-- Whether a list lets an address pass.
abbrev pub permits : AccessList → ℕ → Bool
permits acl addr =
    let allow = in_table addr acl.allow_table in
    let deny = in_table addr acl.deny_table in
    elim acl.processing_order [ allow_deny ↦ allow && not deny | deny_allow ↦ allow || not deny ]

match_entries-any :
    (addr : ℕ) (es : List AclEntry) → (match_entries addr es).0 ≡ any_matches addr es
unfolding match_entries
match_entries-any addr [] = refl
match_entries-any addr (e ∷ es) = ground (arith, match_entries-any addr es)

match_address-in_table :
    (addr : ℕ) (t : Option (List AclEntry))
    → ltb_ℤ (pos 0) (match_address addr t).0 ≡ in_table addr t
unfolding match_address
match_address-in_table addr none = refl
match_address-in_table addr (some []) = refl
match_address-in_table addr (some (e ∷ es)) = ground (arith, match_entries-any addr (e ∷ es))

-- Counting the hits of an entry leaves the entries that match.
match_entries-keeps :
    (a addr : ℕ) (es : List AclEntry) → any_matches a (match_entries addr es).1 ≡ any_matches a es
unfolding match_entries
match_entries-keeps a addr [] = refl
match_entries-keeps a addr (e ∷ es) = ground (arith, match_entries-keeps a addr es)

match_address-keeps :
    (a addr : ℕ) (t : Option (List AclEntry)) → in_table a (match_address addr t).1 ≡ in_table a t
unfolding match_address
match_address-keeps a addr none = refl
match_address-keeps a addr (some []) = refl
match_address-keeps a addr (some (e ∷ es)) = match_entries-keeps a addr (e ∷ es)

-- The list after a packet from an address.
abbrev after : AccessList → ℕ → AccessList
after acl addr = record acl {
  allow_table = (match_address addr acl.allow_table).1;
  deny_table = (match_address addr acl.deny_table).1;
  passed_counter = if permits acl addr then increment acl.passed_counter else acl.passed_counter;
  dropped_counter = if permits acl addr then acl.dropped_counter else increment acl.dropped_counter;
}

match_access_list-some :
    (acl : AccessList) (addr : ℕ)
    → match_access_list (some acl) addr
      ≡ some ((if permits acl addr then pos 1 else pos 0), after acl addr)
unfolding match_access_list
match_access_list-some acl addr =
    ground (
      arith,
      match_address-in_table addr acl.allow_table,
      match_address-in_table addr acl.deny_table,
    )

-- matchIpv4AccessList on a list answers 1 and counts a passed packet, or answers 0 and counts a
-- dropped one: by the order allow-deny the former where an entry of the allow table and none of the
-- deny table matches the address, and by deny-allow where an entry of the allow table matches or
-- none of the deny table. The list afterwards lets the same addresses pass.
pub match_access_list-permits :
    (acl : AccessList) (addr : ℕ)
    → (acl' : AccessList) × (match_access_list (some acl) addr
        ≡ some ((if permits acl addr then pos 1 else pos 0), acl'))
      × (acl'.passed_counter
          ≡ (if permits acl addr then increment acl.passed_counter else acl.passed_counter))
      × (acl'.dropped_counter
          ≡ (if permits acl addr then acl.dropped_counter else increment acl.dropped_counter))
      × ((a : ℕ) → permits acl' a ≡ permits acl a)
match_access_list-permits acl addr = (
  after acl addr,
  match_access_list-some acl addr,
  refl,
  refl,
  λ a. ground (
    arith,
    match_address-keeps a addr acl.allow_table,
    match_address-keeps a addr acl.deny_table,
  ),
)
