-- ===== src/Multicast/Send.antt =====
-- sfptpd_multicast.c: `sfptpd_multicast_send`. The pool of messages and the queues of the threads are
-- arguments: what each allocation gives, and what the sending of a message to a thread returns.
use sfptpd.Prelude.{
  ℕ, suc, not, ◌&&◌, ◌||◌, Option, none, some, List, [], ◌∷◌, ◌++◌, ◌==◌, leb, if◌then◌else◌, ◌>>=◌,
  ◌>>◌, assert, length,
}
use sfptpd.Multicast.Defs.{econnrefused, Group, find_group}

-- `sfptpd_msg_hdr_t`, as far as the service reads it: its address and `sfptpd_msg_get_capacity`.
pub record Message : Type 0 where
  pub address : ℕ
  pub capacity : ℕ

-- `sfptpd_msg_alloc`: a message, or NULL with the value of `errno`.
pub data Alloc : Type 0 where
  failed : ℕ → Alloc
  message : Message → Alloc

-- A message sent: the thread, the message, what it holds and its identifier.
pub record Sent (Payload : Type 0) : Type 0 where
  pub recipient : ℕ
  pub message : Message
  pub payload : Payload
  pub msg_id : ℕ

-- What a call does: the error that it returns, the messages that it sends and those that it frees, in
-- order.
pub record Outcome (Payload : Type 0) : Type 0 where
  pub rc : ℕ
  pub sent : List (Sent Payload)
  pub freed : List Message

-- The loop that allocates a message for each subscriber, from the `i`th on, with the value of `rc`
-- after it. A destination is the thread with the message.
unfoldable pub alloc_dests : (ℕ → Alloc) → ℕ → List ℕ → ℕ × List (ℕ × Option Message)
alloc_dests alloc i [] = (0, [])
alloc_dests alloc i (thread ∷ threads) =
    let rest = alloc_dests alloc (suc i) threads in
    elim (alloc i) [
      | Alloc.failed errno ↦ (errno, (thread, none) ∷ [])
      | Alloc.message m ↦ (rest.0, (thread, some m) ∷ rest.1)
    ]

-- The loop that frees them, the last one first.
unfoldable pub free_dests : List (ℕ × Option Message) → List Message
free_dests [] = []
free_dests ((thread, none) ∷ dests) = free_dests dests
free_dests ((thread, some m) ∷ dests) = free_dests dests ++ m ∷ []

module _ {Payload : Type 0} where
  -- The loop that replicates the message; `none` is a failed assertion or a NULL message.
  unfoldable pub send_all :
      (Message → ℕ → ℕ)
      → Message
      → Payload
      → ℕ
      → ℕ
      → List (ℕ × Option Message)
      → Option (ℕ × List (Sent Payload))
  send_all msg_send hdr payload id rc [] = some (rc, [])
  send_all msg_send hdr payload id rc ((thread, none) ∷ dests) = none
  send_all msg_send hdr payload id rc ((thread, some m) ∷ dests) = do
    assert (leb hdr.capacity m.capacity)
    let ret = msg_send m thread
    rest ← send_all msg_send hdr payload id (if not (ret == 0) && (rc == 0) then ret else rc) dests
    some (
      rest.0,
      (record { recipient = thread; message = m; payload = payload; msg_id = id }) ∷ rest.1,
    )

  -- `sfptpd_multicast_send`.
  unfoldable pub multicast_send :
      (ℕ → Alloc)
      → (Message → ℕ → ℕ)
      → Message
      → Payload
      → ℕ
      → List Group
      → Option (Outcome Payload)
  unfolding find_group alloc_dests free_dests send_all
  multicast_send alloc msg_send hdr payload id groups = elim (find_group id groups) [
    | none ↦ some (record { rc = econnrefused; sent = []; freed = hdr ∷ [] })
    | some g ↦ do
      let allocated = alloc_dests alloc 0 g.subscribers
      let dests = allocated.1
      assert (not (allocated.0 == 0) || (length dests == length g.subscribers))
      out ←
          if not (allocated.0 == 0)
          then some (allocated.0, [])
          else send_all msg_send hdr payload id 0 dests
      some (record {
        rc = out.0;
        sent = out.1;
        freed = (if not (allocated.0 == 0) then free_dests dests else []) ++ hdr ∷ [];
      })
  ]
