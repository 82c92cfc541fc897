-- ===== src/Acl/Tests.antt =====
-- A line of an access control list read by functions that stand for the C library, a list, and the
-- theorems at them.
use sfptpd.Prelude.{
  ℕ, zero, suc, ap, sym, false, replicate, ◌&&◌, ◌+◌, ◌*◌, ◌-◌, ◌≡◌, ◌∙◌, ◌↔◌, refl, arith, true,
  none, some, List, [], ◌∷◌, ◌++◌, ◌==◌, if◌then◌else◌, pos,
}
use sfptpd.Acl.Defs.{AclEntry, AccessList, deny_allow, entry_matches, match_access_list}
use sfptpd.Acl.Bits.{halve}
use sfptpd.Acl.Parse.{Strings, mask_length, parse_acl_entry}
use sfptpd.Acl.Prefix.{mask_length-cases}
use sfptpd.Acl.Octets.{IsLine, address, parse_acl_entry-prefix}
use sfptpd.Acl.Check.{AccessLists, AclOpts, Checks, get_bit, check_acl_mask}
use sfptpd.Acl.Memory.{verdict, Remembers}
use sfptpd.Acl.Verdict.{check_acl_mask-all_pass}
use sfptpd.Acl.Matching.{permits, match_access_list-permits}

abbrev token : List ℕ → List (List ℕ) → List (List ℕ)
token [] ts = ts
token (c ∷ cs) ts = (c ∷ cs) ∷ ts

-- The tokens between single separators.
abbrev split : ℕ → List ℕ → List ℕ → List (List ℕ)
split s acc [] = token acc []
split s acc (c ∷ cs) =
    let ended = split s [] cs in
    let longer = split s (acc ++ (c ∷ [])) cs in if c == s then token acc ended else longer

abbrev first : List ℕ → ℕ
first [] = 0
first (c ∷ cs) = c

abbrev decimal : ℕ → List ℕ → ℕ
decimal n [] = n
decimal n (c ∷ cs) = decimal (n * 10 + (c - 48)) cs

abbrev strings : Strings
strings = record {
  tokens = λ text delim. split (first delim) [] text;
  strtol = λ text. some (pos (decimal 0 text));
}

-- 10.1.0.0/16.
abbrev line : List ℕ
line = 49 ∷ 48 ∷ 46 ∷ 49 ∷ 46 ∷ 48 ∷ 46 ∷ 48 ∷ 47 ∷ 49 ∷ 54 ∷ []

line-IsLine : IsLine strings line 10 1 0 0 16
line-IsLine = record {
  network = 49 ∷ 48 ∷ 46 ∷ 49 ∷ 46 ∷ 48 ∷ 46 ∷ 48 ∷ [];
  prefix = 49 ∷ 54 ∷ [];
  ta = 49 ∷ 48 ∷ [];
  tb = 49 ∷ [];
  tc = 48 ∷ [];
  td = 48 ∷ [];
  line_eq = refl;
  network_eq = refl;
  prefix_eq = refl;
  octet_a = record { read = refl; in_range = omega arith };
  octet_b = record { read = refl; in_range = omega arith };
  octet_c = record { read = refl; in_range = omega arith };
  octet_d = record { read = refl; in_range = omega arith };
  read = refl;
  at_most = omega arith;
}

parse_acl_entry-prefix_example :
    (e : AclEntry) × (parse_acl_entry strings line ≡ some (some e))
    × ((entry_matches 167837953 e ≡ true) ↔ (halve 16 167837953 ≡ halve 16 (address 10 1 0 0)))
parse_acl_entry-prefix_example =
    parse_acl_entry-prefix strings line 10 1 0 0 16 167837953 line-IsLine (omega arith)

mask_length-cases_example :
    (◌≡◌ {A = ℕ} 0 0 → (n : ℕ) × (mask_length 4294901760 ≡ some n))
    × (◌≡◌ {A = ℕ} 0 1 → mask_length 4294901760 ≡ none)
mask_length-cases_example = mask_length-cases 4294901760 (omega arith)

abbrev acl : AccessList
acl = record {
  allow_table =
      some (record { network = 167837696; bitmask = 4294901760; netmask = 16; hit_count = 0 } ∷ []);
  deny_table =
      some (record { network = 167772160; bitmask = 4278190080; netmask = 8; hit_count = 0 } ∷ []);
  processing_order = deny_allow;
  passed_counter = 3;
  dropped_counter = 4;
}

match_access_list-permits_example :
    (acl' : AccessList) × (match_access_list (some acl) 167837953 ≡ some (pos 1, acl'))
    × (acl'.passed_counter ≡ 4)
    × (acl'.dropped_counter ≡ 4)
    × ((a : ℕ) → permits acl' a ≡ permits acl a)
match_access_list-permits_example = match_access_list-permits acl 167837953

get_bit-replicate : (n i : ℕ) → get_bit (replicate n false) i ≡ false
get_bit-replicate zero i = refl
get_bit-replicate (suc n) zero = refl
get_bit-replicate (suc n) (suc i) = get_bit-replicate n i

-- An interface with a list for timing messages, which is enabled.
abbrev lists : AccessLists
lists = record { management_acl = none; timing_acl = some acl; monitoring_acl = none }

abbrev acl_opts : AclOpts
acl_opts = record {
  management_acl_enabled = false;
  timing_acl_enabled = true;
  monitoring_acl_enabled = true;
}

abbrev unchecked : Checks
unchecked = record { lists = lists; checked = replicate 16 false; passed = replicate 16 false }

unchecked-Remembers : Remembers (verdict acl_opts lists 167837953) unchecked
unchecked-Remembers = record {
  lengths = refl;
  passed_eq = λ i.
      get_bit-replicate 16 i
      ∙ sym (ap (λ b. b && verdict acl_opts lists 167837953 i) (get_bit-replicate 16 i));
}

check_acl_mask-all_pass_example :
    (s' : Checks) × (check_acl_mask acl_opts 167837953 (true ∷ true ∷ []) unchecked
      ≡ some (true, s'))
    × Remembers (verdict acl_opts lists 167837953) s'
    × ((j : ℕ) → verdict acl_opts s'.lists 167837953 j ≡ verdict acl_opts lists 167837953 j)
check_acl_mask-all_pass_example =
    check_acl_mask-all_pass acl_opts 167837953 (true ∷ true ∷ []) unchecked unchecked-Remembers
