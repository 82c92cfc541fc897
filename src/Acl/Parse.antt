-- ===== src/Acl/Parse.antt =====
-- ptp/ptpd2/dep/ipv4_acl.c: an entry of an access control list from its text. The calls of the C
-- library are a parameter: `tokens` has the tokens that repeated calls of `strtok_r` find, and
-- `strtol` is `none` where errno is set.
use sfptpd.Prelude.{
  ℕ, zero, suc, ◌+◌, ◌-◌, ◌*◌, ◌%◌, Bool, true, false, ◌&&◌, ◌||◌, Option, none, some, List, [],
  ◌∷◌, length, set, replicate, ltb, leb, ◌==◌, if◌then◌else◌, bit_and, ℤ, pos, negsuc, ◌>>=◌,
}
use sfptpd.Acl.Defs.{AclEntry}
use sfptpd.Acl.Bits.{double, ones}

pub record Strings : Type 0 where
  pub tokens : List ℕ → List ℕ → List (List ℕ)
  pub strtol : List ℕ → Option ℤ

-- The loop for the length of a netmask, `for (tmp = acl->bitmask; tmp << count; count++);`, where
-- `v` is `tmp << count` and `left` is 32 - `count`: `none` is a shift by 32, which is undefined.
unfoldable pub mask_loop : ℕ → ℕ → ℕ → Option ℕ
mask_loop zero count v = none
mask_loop (suc left) count v =
    let rest = mask_loop left (count + 1) (v * 2 % 4294967296) in
    if v == 0 then some count else rest

unfoldable pub mask_length : ℕ → Option ℕ
unfolding mask_loop
mask_length bitmask = mask_loop 32 0 bitmask

-- `~0 << (32 - octet)` in 32 bits, and 0 where `octet` is 0.
unfoldable pub prefix_mask : ℕ → ℕ
prefix_mask octet = if octet == 0 then 0 else double (32 - octet) (ones octet)

-- An address from its four octets.
abbrev pub address_of : List ℕ → ℕ
address_of (a ∷ b ∷ c ∷ d ∷ l) = ((a * 256 + b) * 256 + c) * 256 + d
address_of other = 0

-- The entry of a network and a mask with its length.
abbrev pub entry_of : ℕ → ℕ × ℕ → AclEntry
entry_of network (bitmask, netmask) = record {
  network = bit_and bitmask network;
  bitmask = bitmask;
  netmask = netmask % 65536;
  hit_count = 0;
}

module _ (lib : Strings) where
  -- `countTokens`.
  abbrev pub count_tokens : List ℕ → List ℕ → ℕ
  count_tokens text delim = length (lib.tokens text delim)

  -- The loop of `ipToArray` over the tokens, for an array of four octets: the inner `none` is the
  -- result -1, and the outer one a write past the array.
  unfoldable pub octets_from : Bool → List (List ℕ) → ℕ → List ℕ → Option (Option (List ℕ))
  octets_from is_mask [] count dest = if ltb 4 count then some none else some (some dest)
  octets_from is_mask (t ∷ ts) count dest = if ltb 4 count then some none else elim (lib.strtol t) [
    | none ↦ some none
    | some (negsuc n) ↦ some none
    | some (pos n) ↦
        let dest' = set dest count n in
        let rest = octets_from is_mask ts (count + 1) dest' in
        if ltb 255 n
        then some none
        else if leb 4 count
        then none
        else if is_mask && ltb n 255
        then some (some dest')
        else rest
  ]

  -- `ipToArray`; 46 is the full stop.
  unfoldable pub ip_to_array : List ℕ → Bool → Option (Option (List ℕ))
  unfolding octets_from
  ip_to_array text is_mask = octets_from is_mask (lib.tokens text (46 ∷ [])) 0 (replicate 4 0)

  -- The part of `parseAclEntry` after the stroke: the mask and its length, where there is a token.
  unfoldable pub parse_mask : List (List ℕ) → Option (Option (ℕ × ℕ))
  unfolding prefix_mask mask_length ip_to_array
  parse_mask [] = some (some (4294967295, 32))
  parse_mask (token ∷ rest) =
      if count_tokens token (46 ∷ []) == 1
      then elim (lib.strtol token) [
        | none ↦ some none
        | some (negsuc n) ↦ some none
        | some (pos n) ↦ if ltb 32 n then some none else some (some (prefix_mask n, n))
      ]
      else if ltb 4 (count_tokens token (46 ∷ []))
      then some none
      else do
        octets ← ip_to_array token true
        elim octets [
          | none ↦ some none
          | some l ↦ do count ← mask_length (address_of l); some (some (address_of l, count))
        ]

  -- `parseAclEntry` on a line and an entry whose counter is 0; 47 is the stroke. The inner `none` is
  -- the result -1.
  unfoldable pub parse_acl_entry : List ℕ → Option (Option AclEntry)
  unfolding ip_to_array parse_mask
  parse_acl_entry line = elim (lib.tokens line (47 ∷ [])) [
    | [] ↦ some none
    | token ∷ rest ↦
        if ltb 4 (count_tokens token (46 ∷ [])) || ltb (count_tokens token (46 ∷ [])) 1
        then some none
        else do
          octets ← ip_to_array token false
          elim octets [
            | none ↦ some none
            | some l ↦ do
              mask ← parse_mask rest
              elim mask [ none ↦ some none | some m ↦ some (some (entry_of (address_of l) m)) ]
          ]
  ]
