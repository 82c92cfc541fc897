-- ===== src/Multicast/Tests.antt =====
-- Two threads and two messages, and the theorems at them.
use sfptpd.Prelude.{
  ℕ, ◌≤◌, ◌≡◌, ◌≢◌, refl, true, false, some, List, [], ◌∷◌, if◌then◌else◌, ltb, arith,
}
use sfptpd.Multicast.Defs.{enoent, Group, Request, run}
use sfptpd.Multicast.Registry.{IsRegistry, no_users, users, apply_all}
use sfptpd.Multicast.Refine.{run-apply_all}
use sfptpd.Multicast.Send.{Message, Alloc, Outcome, multicast_send}
use sfptpd.Multicast.Delivery.{Delivers, multicast_send_lem}

-- Thread 7 subscribes to message 1, threads 8 and 7 publish it, 8 leaves it, and 9 was never in it.
abbrev calls : List Request
calls =
    Request.join true true 7 1 false
    ∷ Request.join true true 8 1 true
    ∷ Request.join true true 7 1 true
    ∷ Request.leave 8 1 true
    ∷ Request.leave 9 1 true
    ∷ []

run-apply_all_example :
    IsRegistry (run calls []).1
    × ((run calls []).0 ≡ (apply_all calls no_users).0)
    × (users (run calls []).1 ≡ (apply_all calls no_users).1)
run-apply_all_example = run-apply_all calls

-- The errors that the calls return.
errors_calls : (run calls []).0 ≡ 0 ∷ 0 ∷ 0 ∷ 0 ∷ enoent ∷ []
unfolding run
errors_calls = refl

-- The pool has one message.
abbrev pool : ℕ → Alloc
pool i = if ltb i 1 then Alloc.message (record { address = i; capacity = 64 }) else Alloc.failed 11

pool_fits : (j : ℕ) (m : Message) → pool j ≡ Alloc.message m → 64 ≤ m.capacity
pool_fits j m e = ground (arith, e)

pool_errno : (j errno : ℕ) → pool j ≡ Alloc.failed errno → errno ≢ 0
pool_errno j errno e z = ground (arith, e, z)

abbrev accept : Message → ℕ → ℕ
accept m thread = 0

abbrev hdr : Message
hdr = record { address = 100; capacity = 64 }

-- Two subscribers, with one message in the pool.
abbrev pair : List Group
pair = (record { msg_id = 1; subscribers = 7 ∷ 8 ∷ []; publishers = 9 ∷ [] }) ∷ []

multicast_send_lem_example :
    (o : Outcome ℕ) × (multicast_send pool accept hdr 5 1 pair ≡ some o)
    × Delivers pool accept hdr 5 1 (users pair false 1) (users pair true 1) o
multicast_send_lem_example = multicast_send_lem pool accept hdr 5 1 pair pool_fits pool_errno

-- Nothing is sent to the two, and the message that was allocated is free again.
send_pair :
    multicast_send {Payload = ℕ} pool accept hdr 5 1 pair
    ≡ some
        (record { rc = 11; sent = []; freed = (record { address = 0; capacity = 64 }) ∷ hdr ∷ [] })
unfolding multicast_send
send_pair = refl
