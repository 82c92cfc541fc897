-- ===== src/Multicast/Dests.antt =====
-- The loops of `sfptpd_multicast_send`: allocating the messages, and sending them.
use mathlib.Core.List.{Permᴰ}
use mathlib.Core.List.Permᴰ
use sfptpd.Prelude.{
  ℕ, suc, ◌+◌, ◌≤◌, ◌<◌, ◌≡◌, ◌⊎◌, refl, sym, ap, not, ◌&&◌, Option, some, List, [], ◌∷◌, map, ◌==◌,
  le→leb, if◌then◌else◌, length, arith, inl, inr,
}
use sfptpd.Sorting.{All}
use sfptpd.Multicast.Send.{Message, Alloc, Sent, alloc_dests, free_dests, send_all}

-- The messages that are allocated for some threads, up to the first failure.
abbrev pub taken : (ℕ → Alloc) → ℕ → List ℕ → List Message
taken alloc i [] = []
taken alloc i (thread ∷ threads) =
    let rest = taken alloc (suc i) threads in
    elim (alloc i) [ Alloc.failed errno ↦ [] | Alloc.message m ↦ m ∷ rest ]

-- The first error in a list of them, or 0.
abbrev pub first_error : List ℕ → ℕ
first_error [] = 0
first_error (rc ∷ rcs) = if rc == 0 then first_error rcs else rc

Alloc-cases :
    (a : Alloc) → ((errno : ℕ) × (a ≡ Alloc.failed errno)) ⊎ ((m : Message) × (a ≡ Alloc.message m))
Alloc-cases (Alloc.failed errno) = inl (errno, refl)
Alloc-cases (Alloc.message m) = inr (m, refl)

abbrev pub with_message : ℕ × Message → ℕ × Option Message
with_message d = (d.0, some d.1)

-- Every destination has its message.
pub record Full (alloc : ℕ → Alloc) (capacity i : ℕ) (threads : List ℕ) : Type 0 where
  pub dests : List (ℕ × Message)
  pub outcome : alloc_dests alloc i threads ≡ (0, map with_message dests)
  pub to : map (λ d. d.0) dests ≡ threads
  pub messages : taken alloc i threads ≡ map (λ d. d.1) dests
  pub fits : All (λ d. capacity ≤ d.1.capacity) dests

-- An allocation failed.
pub record Short (alloc : ℕ → Alloc) (i : ℕ) (threads : List ℕ) : Type 0 where
  pub at : ℕ
  pub errno : ℕ
  pub from_i : i ≤ at
  pub below : at < i + length threads
  pub fails : alloc at ≡ Alloc.failed errno
  pub returned : (alloc_dests alloc i threads).0 ≡ errno
  pub freed : Permᴰ (taken alloc i threads) (free_dests (alloc_dests alloc i threads).1)

pub alloc_dests_lem :
    (alloc : ℕ → Alloc) (capacity i : ℕ) (threads : List ℕ)
    → ((j : ℕ) (m : Message) → alloc j ≡ Alloc.message m → capacity ≤ m.capacity)
    → Full alloc capacity i threads ⊎ Short alloc i threads
unfolding alloc_dests free_dests
alloc_dests_lem alloc capacity i [] h =
    inl (record { dests = []; outcome = refl; to = refl; messages = refl; fits = tt })
alloc_dests_lem alloc capacity i (thread ∷ threads) h = elim (Alloc-cases (alloc i)) [
  | inl f ↦ inr (record {
    at = i;
    errno = f.0;
    from_i = omega arith;
    below = omega arith;
    fails = f.1;
    returned = rw (alloc_dests, f.1) refl;
    freed = rw (alloc_dests, taken, f.1) Permᴰ.nil;
  })
  | inr m ↦ elim (alloc_dests_lem alloc capacity (suc i) threads h) [
    | inl full ↦ inl (record {
      dests = (thread, m.0) ∷ full.dests;
      outcome = rw (alloc_dests, m.1, full.outcome) refl;
      to = ap (λ l. thread ∷ l) full.to;
      messages = rw (taken, m.1, full.messages) refl;
      fits = (h i m.0 m.1, full.fits);
    })
    | inr short ↦ inr (record {
      at = short.at;
      errno = short.errno;
      from_i = omega (arith, short.from_i);
      below = omega (arith, short.below);
      fails = short.fails;
      returned = rw (alloc_dests, m.1) short.returned;
      freed =
          rw (alloc_dests, taken, m.1)
            (Permᴰ.trans
              (Permᴰ.cons refl (Permᴰ.trans short.freed (Permᴰ.symm (Permᴰ.append-nil _))))
              (Permᴰ.symm (Permᴰ.middle m.0 _ [])));
    })
  ]
]

zero_or : (rc : ℕ) → (if rc == 0 then 0 else rc) ≡ rc
zero_or rc = ground arith

error_step :
    (rc ret rest : ℕ)
    → let rc' = if not (ret == 0) && (rc == 0) then ret else rc in
      (if rc' == 0 then rest else rc') ≡ (if rc == 0 then (if ret == 0 then rest else ret) else rc)
error_step rc ret rest = ground arith

module _ {Payload : Type 0} (msg_send : Message → ℕ → ℕ) (hdr : Message) (payload : Payload)
    (id : ℕ) where
  send_step :
      (rc thread : ℕ) (m : Message) (dests : List (ℕ × Option Message)) (sent : List (Sent Payload))
      → hdr.capacity ≤ m.capacity
      → let ret = msg_send m thread in
        let rc' = if not (ret == 0) && (rc == 0) then ret else rc in
        send_all msg_send hdr payload id rc' dests
          ≡ some (
            if rc' == 0 then first_error (map (λ s. msg_send s.message s.recipient) sent) else rc',
            sent,
          )
        → let all =
            (record { recipient = thread; message = m; payload = payload; msg_id = id }) ∷ sent in
          send_all msg_send hdr payload id rc ((thread, some m) ∷ dests)
          ≡ some (
            if rc == 0 then first_error (map (λ s. msg_send s.message s.recipient) all) else rc,
            all,
          )
  unfolding send_all
  send_step rc thread m dests sent le e =
      rw (le→leb hdr.capacity m.capacity le, e)
        (ap
          (λ x. some (
            x,
            (record { recipient = thread; message = m; payload = payload; msg_id = id }) ∷ sent,
          ))
          (error_step rc (msg_send m thread) _))

  pub send_all_lem :
      (rc : ℕ) (dests : List (ℕ × Message))
      → All (λ d. hdr.capacity ≤ d.1.capacity) dests
      → (sent : List (Sent Payload)) × (send_all msg_send hdr payload id rc (map with_message dests)
          ≡ some (
            if rc == 0 then first_error (map (λ s. msg_send s.message s.recipient) sent) else rc,
            sent,
          ))
        × (map (λ s. s.recipient) sent ≡ map (λ d. d.0) dests)
        × (map (λ s. s.message) sent ≡ map (λ d. d.1) dests)
        × All (λ s. (s.payload ≡ payload) × (s.msg_id ≡ id)) sent
  unfolding send_all
  send_all_lem rc [] fits = ([], ap (λ x. some (x, [])) (sym (zero_or rc)), refl, refl, tt)
  send_all_lem rc ((thread, m) ∷ dests) fits =
      let (sent, e, to, ms, all) =
        send_all_lem (if not (msg_send m thread == 0) && (rc == 0) then msg_send m thread else rc)
          dests fits.1 in
      (
        (record { recipient = thread; message = m; payload = payload; msg_id = id }) ∷ sent,
        send_step rc thread m _ sent fits.0 e,
        ap (λ l. thread ∷ l) to,
        ap (λ l. m ∷ l) ms,
        ((refl, refl), all),
      )
