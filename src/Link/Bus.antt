-- ===== src/Link/Bus.antt =====
-- daemon/src/ext_link.rs: the registered senders.
use php_periscope.Common.{
  ◌≤◌, List, [], ◌∷◌, ◌++◌, ◌≡◌, refl, arith, length, All, map, retain, count_where, if◌then◌else◌,
  leb, length-append,
}
use php_periscope.Link.{
  DaemonMessage, LinkBus, Sender, channel_capacity, try_send, is_open, broadcast_to_extensions,
  extension_count,
}

-- No channel holds more than its capacity.
abbrev pub WithinCapacity : Sender → Type 0
WithinCapacity tx = length tx.queue ≤ channel_capacity

-- The channel is open, its queue the old one or the old one with the message at its end.
abbrev pub delivered : DaemonMessage → Sender → List DaemonMessage
delivered msg tx = if leb channel_capacity (length tx.queue) then tx.queue else tx.queue ++ msg ∷ []

queues_lem :
    (msg : DaemonMessage) (txs : List Sender)
    → map (λ tx. tx.queue) (map (try_send msg) (retain is_open txs))
      ≡ map (delivered msg) (retain is_open txs)
unfolding retain try_send
queues_lem msg [] = refl
queues_lem msg (tx ∷ txs) = ground (arith, queues_lem msg txs)

open_lem :
    (msg : DaemonMessage) (txs : List Sender)
    → count_where is_open (map (try_send msg) (retain is_open txs)) ≡ count_where is_open txs
unfolding retain try_send
open_lem msg [] = refl
open_lem msg (tx ∷ txs) = ground (arith, open_lem msg txs)

length_lem :
    (msg : DaemonMessage) (txs : List Sender)
    → length (map (try_send msg) (retain is_open txs)) ≡ count_where is_open txs
unfolding retain try_send
length_lem msg [] = refl
length_lem msg (tx ∷ txs) = ground (arith, length_lem msg txs)

capacity_lem :
    (msg : DaemonMessage) (txs : List Sender)
    → All WithinCapacity txs
    → All WithinCapacity (map (try_send msg) (retain is_open txs))
unfolding retain try_send
capacity_lem msg [] h = tt
capacity_lem msg (tx ∷ txs) (p, h) =
    ground (arith, capacity_lem msg txs h, length-append tx.queue (msg ∷ []))

-- A message broadcast to the extensions, when no channel holds more than its capacity of 64: the
-- queues that are left are those of the open senders, in their order, each with the message at
-- its end, or as it was when its channel was full; the number of extensions is as before and is
-- now the number of senders; and no channel holds more than its capacity.
pub broadcast_to_extensions_lem :
    (msg : DaemonMessage) (bus : LinkBus)
    → All WithinCapacity bus.outbound
    → let after = broadcast_to_extensions msg bus in
      (map (λ tx. tx.queue) after.outbound ≡ map (delivered msg) (retain is_open bus.outbound))
      × (extension_count after ≡ extension_count bus)
      × (length after.outbound ≡ extension_count bus)
      × All WithinCapacity after.outbound
unfolding broadcast_to_extensions extension_count
broadcast_to_extensions_lem msg bus within = (
  queues_lem msg bus.outbound,
  open_lem msg bus.outbound,
  length_lem msg bus.outbound,
  capacity_lem msg bus.outbound within,
)
