-- ===== src/Mpmc/Unbounded/Standing.antt =====
-- The operations of src/queues/mpmc/unbounded.rs keep the channel standing for a list of items.
use nolock.Prelude.{
  ℕ, suc, ◌+◌, ◌-◌, ◌%◌, ◌*◌, ◌^◌, ◌<◌, ◌≤◌, ◌≡◌, refl, sym, subst, ◌∙◌, Bool, true, false, not,
  none, some, List, [], ◌∷◌, ◌++◌, if◌then◌else◌, length, get_elem?, ◌>>=◌, arith, ok, err, dec_lt,
}
use nolock.Queues.{DequeueError}
use nolock.Mpmc.Bounded.Repr.{count}
use nolock.Mpmc.Segment.Refine.{new_queue-Open}
use nolock.Mpmc.Unbounded.{
  Channel, queue, enqueue, try_dequeue, drop_sender, drop_receiver, receivers_gone, senders_gone,
  is_last, reference,
}
use nolock.Mpmc.Unbounded.Chain.{Chain, last, slack, less-Chain}
use nolock.Mpmc.Unbounded.Sending.{enqueue-Chain}
use nolock.Mpmc.Unbounded.Retiring.{retire_all-Chain}
use nolock.Mpmc.Unbounded.Receiving.{Retired, taken, remaining, parts, receive-Chain}

module _ {ℓ} {A : Type ℓ} where
  -- The channel holds the items `l` while the receiver is there.
  pub record Stands (n k : ℕ) (rx tx : Bool) (l : List A) (s : Channel A) : Type ℓ where
    pub receiver_count : s.rx_count ≡ count rx
    pub sender_count : s.tx_count ≡ count tx
    pub linked :
        rx ≡ true
        → (suc s.tail ≡ length s.memory)
          × Retired s.memory s.head
          × Chain n k s.memory false s.head l
    pub kept :
        rx ≡ false → (get_elem? s.memory s.tail ≡ some none) × (is_last s.tail s.retired ≡ true)

module _ {ℓ} {A : Type ℓ} {n k : ℕ} {rx tx : Bool} {l : List A} {s : Channel A} where
  receiver_lem : Stands n k rx tx l s → receivers_gone s ≡ not rx
  unfolding receivers_gone
  receiver_lem st = ground (arith, st.receiver_count)

  sender_lem : Stands n k rx tx l s → senders_gone s ≡ not tx
  unfolding senders_gone
  sender_lem st = ground (arith, st.sender_count)

  pub drop_sender-Stands : tx ≡ true → Stands n k rx tx l s → Stands n k rx false l (drop_sender s)
  unfolding drop_sender
  drop_sender-Stands here st = record {
    receiver_count = st.receiver_count;
    sender_count = rw (st.sender_count, here) refl;
    linked = st.linked;
    kept = st.kept;
  }

  less-Stands : {j : ℕ} → k ≡ suc j → Stands n k rx tx l s → Stands n j rx tx l s
  less-Stands {j} at st = record {
    receiver_count = st.receiver_count;
    sender_count = st.sender_count;
    linked = λ here.
        let (end, freed, c) = st.linked here in
        (end, freed, less-Chain (subst (λ i. Chain n i s.memory false s.head l) at c));
    kept = st.kept;
  }

  -- When the receiver leaves, each buffer that it has not retired before is retired, no other one is, and
  -- every buffer that was ever made is retired then; the channel still stands for the sender.
  pub drop_receiver-Stands :
      rx ≡ true
      → Stands n k rx tx l s
      → (s' : Channel A) × (drop_receiver s ≡ some s')
        × Stands n k false tx l s'
        × Retired s'.memory (length s'.memory)
  unfolding drop_receiver
  drop_receiver-Stands here st =
      let (end, freed, c) = st.linked here in
      let (m, g, e, newest, same, gone, kept) =
        retire_all-Chain (length s.memory) s.head s.tail s.retired
          ((s.rx_count + 2 ^ 64 - 1) % 2 ^ 64) s.tx_count c (omega arith) in
      let all : Retired m (length m) = λ i lt. elim (dec_lt i s.head) [
        | yes before ↦ kept i before ∙ freed i before
        | no from ↦ gone i (omega arith) (omega (arith, same))
      ] in
      (
        parts m s.head s.tail g ((s.rx_count + 2 ^ 64 - 1) % 2 ^ 64) s.tx_count,
        e,
        record {
          receiver_count = rw (st.receiver_count, here) refl;
          sender_count = st.sender_count;
          linked = λ f. cc;
          kept = λ _. (all s.tail (omega (arith, same)), newest s.tail end);
        },
        all,
      )

module _ {n : ℕ} (pos : 0 < n) (size : n ≤ 2 ^ 30) {f : ℕ} (rounds : f ≤ 2 ^ 61)
    (many : n * 3 ≤ suc (suc f)) where
  module _ {ℓ} {A : Type ℓ} {k : ℕ} {l : List A} {s : Channel A} where
    -- A send, whether the receiver is there or not.
    pub enqueue-Stands :
        (rx : Bool) {tx : Bool} (r : ℕ) (x : A)
        → n * 9 + k + 3 < 2 ^ 31 * (n * 2)
        → Stands n (suc k) rx tx l s
        → (s' : Channel A) × (enqueue n (suc (suc f)) (suc r) s x
            ≡ some (if rx then ok tt else err x, s'))
          × Stands n k rx tx (if rx then l ++ (x ∷ []) else l) s'
    unfolding enqueue reference
    enqueue-Stands true r x budget st =
        let (end, freed, c) = st.linked refl in
        let (m, tail, e, end', same, c') =
          enqueue-Chain pos size rounds budget s x r (receiver_lem st) end c in
        (
          record s { memory = m; tail = tail },
          e,
          record {
            receiver_count = st.receiver_count;
            sender_count = st.sender_count;
            linked = λ _. (end', (λ i lt. same i lt ∙ freed i lt), c');
            kept = λ f. cc;
          },
        )
    enqueue-Stands false r x budget st =
        let (gone, newest) = st.kept refl in
        (s, rw (enqueue, gone, ◌>>=◌, newest, receiver_lem st) refl, less-Stands refl st)

    -- A receive, whether the sender is there or not.
    pub try_dequeue-Stands :
        (tx : Bool) (r : ℕ)
        → Stands n (suc k) true tx l s
        → (s' : Channel A) × (try_dequeue n (suc (suc f)) (suc (suc r)) s
            ≡ some (if tx then taken l else err DequeueError.closed, s'))
          × Stands n k true tx (if tx then remaining l else l) s'
    unfolding try_dequeue senders_gone
    try_dequeue-Stands true r st =
        let (end, freed, c) = st.linked refl in
        let (m, h, g, e, same, kept, c') =
          receive-Chain size rounds many r s.tail s.retired s.rx_count s.tx_count (sender_lem st)
            c in
        (
          record s { memory = m; head = h; retired = g },
          e,
          record {
            receiver_count = st.receiver_count;
            sender_count = st.sender_count;
            linked = λ _. (end ∙ sym same, kept freed, c');
            kept = λ f. cc;
          },
        )
    try_dequeue-Stands false r st = (s, rw (try_dequeue, sender_lem st) refl, less-Stands refl st)

  module _ {ℓ} {A : Type ℓ} where
    -- A new queue is empty, with both halves there.
    pub queue-Stands :
        (k : ℕ)
        → n * 9 + k + 2 < 2 ^ 31 * (n * 2)
        → (s : Channel A) × (queue n (suc (suc f)) ≡ some s) × Stands n k true true [] s
    unfolding queue
    queue-Stands k budget =
        let (q, e, h) = new_queue-Open size rounds {A = A} (slack n k) pos (omega arith) in
        let s : Channel A = parts (some (record { queue = q; next = none }) ∷ []) 0 0 [] 1 1 in
        (
          s,
          rw e refl,
          record {
            receiver_count = refl;
            sender_count = refl;
            linked = λ _. (refl, (λ i lt. absurd (omega arith)), last refl h refl (λ f. cc));
            kept = λ f. cc;
          },
        )
