-- ===== src/Multicast/Delivery.antt =====
-- What `sfptpd_multicast_send` sends, and what becomes of the messages that it allocates.
use mathlib.Core.List.{Permᴰ}
use mathlib.Core.Path.{subst}
use mathlib.Core.List.Permᴰ
use sfptpd.Prelude.{
  ℕ, suc, ◌≤◌, ◌<◌, ◌≡◌, ◌≢◌, ◌⊎◌, refl, sym, ap, ◌∙◌, true, false, none, some, List, [], ◌∷◌, ◌++◌,
  map, ◌==◌, length, arith, inl, inr, Option-cases,
}
use sfptpd.Sorting.{All}
use sfptpd.Multicast.Defs.{econnrefused, Group, find_group}
use sfptpd.Multicast.Registry.{users, users-found}
use sfptpd.Multicast.Send.{
  Message, Alloc, Sent, Outcome, alloc_dests, free_dests, send_all, multicast_send,
}
use sfptpd.Multicast.Dests.{
  taken, first_error, with_message, Full, Short, alloc_dests_lem, send_all_lem,
}

-- What a send does with the messages, for these subscribers and publishers.
abbrev pub Delivers :
    {Payload : Type 0}
    → (ℕ → Alloc)
    → (Message → ℕ → ℕ)
    → Message
    → Payload
    → ℕ
    → List ℕ
    → List ℕ
    → Outcome Payload
    → Type 0
Delivers alloc msg_send hdr payload id subscribers publishers o =
    Permᴰ (taken alloc 0 subscribers ++ hdr ∷ []) (map (λ s. s.message) o.sent ++ o.freed)
    × (((o.sent ≡ []) × (o.rc ≡ econnrefused) × (subscribers ≡ []) × (publishers ≡ []))
        ⊎ ((o.sent ≡ [])
            × (o.rc ≢ 0)
            × (j : ℕ) × (j < length subscribers)
            × (alloc j ≡ Alloc.failed o.rc))
        ⊎ ((map (λ s. s.recipient) o.sent ≡ subscribers)
            × (o.rc ≡ first_error (map (λ s. msg_send s.message s.recipient) o.sent))
            × All (λ s. (s.payload ≡ payload) × (s.msg_id ≡ id)) o.sent))

length-map {ℓ κ} : {A : Type ℓ} {B : Type κ} (f : A → B) (l : List A) → length (map f l) ≡ length l
length-map f [] = refl
length-map f (x ∷ l) = ap suc (length-map f l)

not_zero : (rc : ℕ) → rc ≢ 0 → (rc == 0) ≡ false
not_zero rc h = ground (arith, h)

self_test : (n : ℕ) → (n == n) ≡ true
self_test n = ground arith

module _ {Payload : Type 0} (alloc : ℕ → Alloc) (msg_send : Message → ℕ → ℕ) (hdr : Message)
    (payload : Payload) (id : ℕ) (groups : List Group) where
  send_short :
      (g : Group)
      → find_group id groups ≡ some g
      → (alloc_dests alloc 0 g.subscribers).0 ≢ 0
      → multicast_send alloc msg_send hdr payload id groups
        ≡ some (record {
          rc = (alloc_dests alloc 0 g.subscribers).0;
          sent = [];
          freed = free_dests (alloc_dests alloc 0 g.subscribers).1 ++ hdr ∷ [];
        })
  unfolding multicast_send
  send_short g e h = rw (multicast_send, e, not_zero (alloc_dests alloc 0 g.subscribers).0 h) refl

  send_full :
      (g : Group) (dests : List (ℕ × Message)) (rc : ℕ) (sent : List (Sent Payload))
      → find_group id groups ≡ some g
      → alloc_dests alloc 0 g.subscribers ≡ (0, map with_message dests)
      → map (λ d. d.0) dests ≡ g.subscribers
      → send_all msg_send hdr payload id 0 (map with_message dests) ≡ some (rc, sent)
      → multicast_send alloc msg_send hdr payload id groups
        ≡ some (record { rc = rc; sent = sent; freed = hdr ∷ [] })
  unfolding multicast_send
  send_full g dests rc sent e f to k =
      let n : length (map with_message dests) ≡ length g.subscribers =
        length-map with_message dests ∙ sym (length-map (λ d. d.0) dests) ∙ ap length to in
      rw (multicast_send, e, f, n, self_test (length g.subscribers), k) refl

  delivered :
      (g : Group)
      → find_group id groups ≡ some g
      → Full alloc hdr.capacity 0 g.subscribers
      → (o : Outcome Payload) × (multicast_send alloc msg_send hdr payload id groups ≡ some o)
        × Delivers alloc msg_send hdr payload id g.subscribers g.publishers o
  delivered g e full =
      let (sent, k, to, ms, all) = send_all_lem msg_send hdr payload id 0 full.dests full.fits in
      let rc = first_error (map (λ s. msg_send s.message s.recipient) sent) in
      (
        record { rc = rc; sent = sent; freed = hdr ∷ [] },
        send_full g full.dests rc sent e full.outcome full.to k,
        (
          subst (λ l. Permᴰ (l ++ hdr ∷ []) (map (λ s. s.message) sent ++ hdr ∷ []))
              (ms ∙ sym full.messages) (Permᴰ.refl _),
          inr (inr (to ∙ full.to, refl, all)),
        ),
      )

  undelivered :
      (g : Group)
      → find_group id groups ≡ some g
      → ((j errno : ℕ) → alloc j ≡ Alloc.failed errno → errno ≢ 0)
      → Short alloc 0 g.subscribers
      → (o : Outcome Payload) × (multicast_send alloc msg_send hdr payload id groups ≡ some o)
        × Delivers alloc msg_send hdr payload id g.subscribers g.publishers o
  undelivered g e errno short =
      let not_ok : (alloc_dests alloc 0 g.subscribers).0 ≢ 0 =
        λ z. errno short.at short.errno short.fails (sym short.returned ∙ z) in
      (
        record {
          rc = (alloc_dests alloc 0 g.subscribers).0;
          sent = [];
          freed = free_dests (alloc_dests alloc 0 g.subscribers).1 ++ hdr ∷ [];
        },
        send_short g e not_ok,
        (
          Permᴰ.append_right (hdr ∷ []) short.freed,
          inr (
              inl (
                refl,
                not_ok,
                short.at,
                omega (arith, short.below),
                short.fails ∙ ap Alloc.failed (sym short.returned),
              )),
        ),
      )

-- With messages of the pool no smaller than the one to send and errors that are not 0, a send does
-- not fail an assertion. The messages that it allocates are, with the one to send, those that it sends
-- and those that it frees. And it sends nothing, and returns ECONNREFUSED, where the message has no
-- user, or sends nothing, and returns the error of an allocation that failed, or sends the message
-- once to each subscriber, in order, and returns the first error of these.
pub multicast_send_lem :
    {Payload : Type 0} (alloc : ℕ → Alloc) (msg_send : Message → ℕ → ℕ) (hdr : Message)
    (payload : Payload) (id : ℕ) (groups : List Group)
    → ((j : ℕ) (m : Message) → alloc j ≡ Alloc.message m → hdr.capacity ≤ m.capacity)
    → ((j errno : ℕ) → alloc j ≡ Alloc.failed errno → errno ≢ 0)
    → (o : Outcome Payload) × (multicast_send alloc msg_send hdr payload id groups ≡ some o)
      × Delivers alloc msg_send hdr payload id (users groups false id) (users groups true id) o
unfolding multicast_send
multicast_send_lem alloc msg_send hdr payload id groups fits errno =
    elim (Option-cases (find_group id groups)) [
      | inl e ↦
          rw (users-found id none groups false e, users-found id none groups true e)
            (
              record { rc = econnrefused; sent = []; freed = hdr ∷ [] },
              rw (multicast_send, e) refl,
              (Permᴰ.refl _, inl (refl, refl, refl, refl)),
            )
      | inr p ↦
          rw (users-found id (some p.0) groups false p.1, users-found id (some p.0) groups true p.1)
            (elim (alloc_dests_lem alloc hdr.capacity 0 p.0.subscribers fits) [
              | inl full ↦ delivered alloc msg_send hdr payload id groups p.0 p.1 full
              | inr short ↦ undelivered alloc msg_send hdr payload id groups p.0 p.1 errno short
            ])
    ]
