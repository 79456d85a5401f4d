-- ===== src/Bus/Memory/Ack.antt =====
-- bus/memory.py: acknowledgement.
use Prim.Native.String.{String}
use hammertime.Base.{
  ℕ, ◌≡◌, refl, not, ◌&&◌, ◌||◌, some, List, [], ◌∷◌, ok, err, value_error, if◌then◌else◌, mem,
  mem-without, arith,
}
use hammertime.Base.Dict.{string_key, pair_key, lookup-put, same_refl}
use hammertime.Bus.Memory.{
  ConsumedMessage, InMemoryBus, MemoryConsumer, acked_of, is_acked, union, mark_acked, offsets_of,
  all_outstanding, without_all, ack_checked, ack,
}

mem-union : (n : ℕ) (ms ns : List ℕ) → mem n (union ms ns) ≡ (mem n ms || mem n ns)
mem-union n [] ns = refl
mem-union n (m ∷ ms) ns = ground (arith, mem-union n ms ns)

mem-without_all :
    (n : ℕ) (ms ns : List ℕ) → mem n (without_all ms ns) ≡ (mem n ns && not (mem n ms))
mem-without_all n [] ns = ground arith
mem-without_all n (m ∷ ms) ns =
    ground (arith, mem-without_all n ms ns, mem-without n m (without_all ms ns))

acked_after :
    (bus : InMemoryBus) (c : MemoryConsumer) (t : String) (messages : List ConsumedMessage) (n : ℕ)
    → c.topic ≡ some t
    → is_acked (ack_checked bus c messages).0 t c.group_id n
      ≡ (is_acked bus t c.group_id n || mem n (offsets_of messages))
unfolding is_acked ack_checked mark_acked
acked_after bus c t [] n h = ground arith
acked_after bus c t (message ∷ rest) n h =
    let offsets = message.offset ∷ offsets_of rest in
    rw h (
      ground (
        arith,
        lookup-put (t, c.group_id) (t, c.group_id) (union offsets (acked_of bus t c.group_id))
            bus.acked,
        same_refl {K = String × String} (t, c.group_id),
        mem-union n offsets (acked_of bus t c.group_id),
      ))

unacked_after :
    (bus : InMemoryBus) (c : MemoryConsumer) (messages : List ConsumedMessage) (n : ℕ)
    → mem n (ack_checked bus c messages).1.unacked
      ≡ (mem n c.unacked && not (mem n (offsets_of messages)))
unfolding ack_checked
unacked_after bus c [] n = ground arith
unacked_after bus c (message ∷ rest) n =
    mem-without_all n (message.offset ∷ offsets_of rest) c.unacked

-- A batch is refused whole if the consumer is closed or positional or one message is not outstanding;
-- otherwise exactly its offsets become acknowledged for the group and stop being outstanding.
pub ack_lem :
    (bus : InMemoryBus) (c : MemoryConsumer) (t : String) (messages : List ConsumedMessage) (n : ℕ)
    → c.topic ≡ some t
    → ack bus c messages ≡ (
        if c.closed || c.positional || not (all_outstanding c messages)
        then err value_error
        else ok (ack_checked bus c messages))
      × (is_acked (ack_checked bus c messages).0 t c.group_id n
          ≡ (is_acked bus t c.group_id n || mem n (offsets_of messages)))
      × (mem n (ack_checked bus c messages).1.unacked
          ≡ (mem n c.unacked && not (mem n (offsets_of messages))))
unfolding ack
ack_lem bus c t messages n h =
    (ground arith, acked_after bus c t messages n h, unacked_after bus c messages n)
