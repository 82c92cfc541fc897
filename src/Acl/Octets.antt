-- ===== src/Acl/Octets.antt =====
-- What `parseAclEntry` of ptp/ptpd2/dep/ipv4_acl.c makes of an address and a prefix length, and
-- where `ipToArray` stays in its array.
use sfptpd.Prelude.{
  ℕ, ◌+◌, ◌-◌, ◌*◌, ◌≤◌, ◌<◌, ◌≡◌, ◌≢◌, ◌↔◌, arith, ap, ◌∙◌, Bool, true, false, none, some, List,
  [], ◌∷◌, length, set, replicate, pos,
}
use sfptpd.Acl.Defs.{AclEntry, entry_matches}
use sfptpd.Acl.Bits.{halve}
use sfptpd.Acl.Parse.{
  Strings, count_tokens, octets_from, ip_to_array, parse_acl_entry, parse_mask, prefix_mask,
  entry_of,
}
use sfptpd.Acl.Prefix.{entry_matches-prefix}

module _ (lib : Strings) where
  octets_from-in_bounds :
      (m : Bool) (ts : List (List ℕ)) (count : ℕ) (dest : List ℕ)
      → length ts + count ≤ 4
      → octets_from lib m ts count dest ≢ none
  unfolding octets_from
  octets_from-in_bounds m [] count dest h = ground arith
  octets_from-in_bounds m (t ∷ ts) count dest h =
      grind (arith, λ (n : ℕ). octets_from-in_bounds m ts (count + 1) (set dest count n))

  -- A text of at most four tokens stays in the array.
  pub ip_to_array-in_bounds :
      (text : List ℕ) (m : Bool)
      → count_tokens lib text (46 ∷ []) ≤ 4
      → ip_to_array lib text m ≢ none
  unfolding ip_to_array
  ip_to_array-in_bounds text m h =
      octets_from-in_bounds m (lib.tokens text (46 ∷ [])) 0 (replicate 4 0) (omega arith)

-- A text that `strtol` reads as an octet.
pub record IsOctet (lib : Strings) (text : List ℕ) (n : ℕ) : Type 0 where
  pub read : lib.strtol text ≡ some (pos n)
  pub in_range : n < 256

abbrev pub address : ℕ → ℕ → ℕ → ℕ → ℕ
address a b c d = ((a * 256 + b) * 256 + c) * 256 + d

-- A line that has the four octets of an address and the length of a prefix.
pub record IsLine (lib : Strings) (line : List ℕ) (a b c d n : ℕ) : Type 0 where
  pub network : List ℕ
  pub prefix : List ℕ
  pub ta : List ℕ
  pub tb : List ℕ
  pub tc : List ℕ
  pub td : List ℕ
  pub line_eq : lib.tokens line (47 ∷ []) ≡ network ∷ prefix ∷ []
  pub network_eq : lib.tokens network (46 ∷ []) ≡ ta ∷ tb ∷ tc ∷ td ∷ []
  pub prefix_eq : length (lib.tokens prefix (46 ∷ [])) ≡ 1
  pub octet_a : IsOctet lib ta a
  pub octet_b : IsOctet lib tb b
  pub octet_c : IsOctet lib tc c
  pub octet_d : IsOctet lib td d
  pub read : lib.strtol prefix ≡ some (pos n)
  pub at_most : n ≤ 32

-- One token of an address.
octets_from_octet :
    (lib : Strings) (t : List ℕ) (n : ℕ) (ts : List (List ℕ)) (count : ℕ) (dest : List ℕ)
    → IsOctet lib t n
    → count < 4
    → octets_from lib false (t ∷ ts) count dest
      ≡ octets_from lib false ts (count + 1) (set dest count n)
unfolding octets_from
octets_from_octet lib t n ts count dest o h = ground (arith, o.read, o.in_range)

ip_to_array-IsLine :
    (lib : Strings) (line : List ℕ) (a b c d n : ℕ) (l : IsLine lib line a b c d n)
    → ip_to_array lib l.network false ≡ some (some (a ∷ b ∷ c ∷ d ∷ []))
unfolding ip_to_array octets_from
ip_to_array-IsLine lib line a b c d n l =
    ap (λ ts. octets_from lib false ts 0 (replicate 4 0)) l.network_eq
    ∙ octets_from_octet lib l.ta a (l.tb ∷ l.tc ∷ l.td ∷ []) 0 (replicate 4 0) l.octet_a
        (omega arith)
    ∙ octets_from_octet lib l.tb b (l.tc ∷ l.td ∷ []) 1 (a ∷ 0 ∷ 0 ∷ 0 ∷ []) l.octet_b (omega arith)
    ∙ octets_from_octet lib l.tc c (l.td ∷ []) 2 (a ∷ b ∷ 0 ∷ 0 ∷ []) l.octet_c (omega arith)
    ∙ octets_from_octet lib l.td d [] 3 (a ∷ b ∷ c ∷ 0 ∷ []) l.octet_d (omega arith)

parse_mask-prefix :
    (lib : Strings) (line : List ℕ) (a b c d n : ℕ) (l : IsLine lib line a b c d n)
    → parse_mask lib (l.prefix ∷ []) ≡ some (some (prefix_mask n, n))
unfolding parse_mask
parse_mask-prefix lib line a b c d n l = ground (arith, l.prefix_eq, l.read, l.at_most)

-- A line of the four octets of an address and a prefix length of at most 32, as strtok_r and strtol
-- read them, makes an entry that matches an address exactly where its first bits, as many as the
-- length says, are those of the address in the line.
pub parse_acl_entry-prefix :
    (lib : Strings) (line : List ℕ) (a b c d n addr : ℕ)
    → IsLine lib line a b c d n
    → addr < 4294967296
    → (e : AclEntry) × (parse_acl_entry lib line ≡ some (some e))
      × ((entry_matches addr e ≡ true) ↔ (halve (32 - n) addr ≡ halve (32 - n) (address a b c d)))
unfolding parse_acl_entry
parse_acl_entry-prefix lib line a b c d n addr l h = (
  entry_of (address a b c d) (prefix_mask n, n),
  ground (
    arith,
    l.line_eq,
    ap (length {A = List ℕ}) l.network_eq,
    ip_to_array-IsLine lib line a b c d n l,
    parse_mask-prefix lib line a b c d n l,
  ),
  entry_matches-prefix n (address a b c d) addr l.at_most
      (omega
        (arith, l.octet_a.in_range, l.octet_b.in_range, l.octet_c.in_range, l.octet_d.in_range))
      h,
)
