-- ===== src/Spsc/Bounded/Threads.antt =====
-- The two halves of src/queues/spsc/bounded.rs in two threads: `try_enqueue`, `try_dequeue` and the
-- drops, cut at each access to what the halves share, and interleaved in any order.
pub mod Inv
pub mod Steps
pub mod Producing
pub mod Entries
pub mod Consuming
pub mod Safety
use nolock.Prelude.{
  ℕ, Bool, true, false, Option, none, some, List, [], ◌∷◌, ◌++◌, ◌≡◌, if◌then◌else◌, length,
  get_elem?, set, ◌>>=◌, ok, err,
}
use nolock.Queues.{DequeueError, empty}
use nolock.Spsc.Node
use nolock.Spsc.Node.{Node}
use nolock.Spsc.Bounded.{Channel, DequeueResult, next_element, queue}

-- Where the producer stands, with the item that it holds.
pub data Producer {ℓ} (A : Type ℓ) : Type ℓ where
  resting : Producer A
  opened : A → Producer A  -- `closed` was false
  room : A → Producer A  -- the entry was not set
  written : A → Producer A  -- the item is in the entry, the flag is not
  gone : Producer A  -- dropped

pub data Consumer {ℓ} (A : Type ℓ) : Type ℓ where
  resting : Consumer A
  unset : Consumer A  -- the entry was not set
  closing : Consumer A  -- and then `closed` was true
  ready : Consumer A  -- the entry was set
  taken : A → Consumer A  -- the item is out of the entry, the flag is still set
  gone : Consumer A

-- `sent` and `got` are a record of the past: the items whose `try_enqueue` stored its flag, and those
-- whose `try_dequeue` returned; `last` is what the last `try_dequeue` that returned gave.
pub record System {ℓ} (A : Type ℓ) : Type ℓ where
  pub chan : Channel A
  pub producer : Producer A
  pub consumer : Consumer A
  pub sent : List A
  pub got : List A
  pub last : Option (DequeueResult A)

-- What an owner does next where it rests.
pub data Choice {ℓ} (A : Type ℓ) : Type ℓ where
  call : A → Choice A
  leave : Choice A

module _ {ℓ} {A : Type ℓ} where
  -- `node[i] = f(node[i])`, for one access to an entry; a fault outside the buffer
  abbrev pub update : Channel A → ℕ → (Node A → Node A) → Option (Channel A)
  update c i f = do e ← get_elem? c.buffer i; some (record c { buffer = set c.buffer i (f e) })

  abbrev pub read_flag : Channel A → ℕ → Option Bool
  read_flag c i = do e ← get_elem? c.buffer i; some e.is_set

  -- One access of the producer. `opened` to `written` are the lines of `try_enqueue`.
  unfoldable pub produce : Choice A → Producer A → System A → Option (System A)
  produce (call x) resting s =
      some (record s { producer = if s.chan.closed then Producer.resting else opened x })
  produce leave resting s =
      some (record s { chan = record (s.chan) { closed = true }; producer = Producer.gone })
  produce _ (opened x) s = do
    b ← read_flag s.chan s.chan.head
    some (record s { producer = if b then Producer.resting else room x })
  produce _ (room x) s = do
    c ← update s.chan s.chan.head (λ e. Node.put e x)
    some (record s { chan = c; producer = written x })
  produce _ (written x) s = do
    c ← update s.chan s.chan.head (λ e. Node.mark e true)
    some (record s {
      chan = record c { head = next_element c.head (length c.buffer) };
      producer = Producer.resting;
      sent = s.sent ++ (x ∷ []);
    })
  produce _ gone s = some s

  -- One access of the consumer; it calls `try_dequeue` where it does not leave.
  unfoldable pub consume : Bool → Consumer A → System A → Option (System A)
  consume false resting s = do
    b ← read_flag s.chan s.chan.tail
    some (record s { consumer = if b then ready else unset })
  consume true resting s =
      some (record s { chan = record (s.chan) { closed = true }; consumer = Consumer.gone })
  consume _ unset s = some (
      if s.chan.closed
      then record s { consumer = closing }
      else record s { consumer = Consumer.resting; last = some (err empty) })
  consume _ closing s = do
    b ← read_flag s.chan s.chan.tail
    some (record s {
      consumer = Consumer.resting;
      last = some (err (if b then empty else DequeueError.closed));
    })
  consume _ ready s = do
    e ← get_elem? s.chan.buffer s.chan.tail
    (x, e') ← Node.take e
    some (record s {
      chan = record (s.chan) { buffer = set s.chan.buffer s.chan.tail e' };
      consumer = taken x;
    })
  consume _ (taken x) s = do
    c ← update s.chan s.chan.tail (λ e. Node.mark e false)
    some (record s {
      chan = record c { tail = next_element c.tail (length c.buffer) };
      consumer = Consumer.resting;
      got = s.got ++ (x ∷ []);
      last = some (ok x);
    })
  consume _ gone s = some s

  unfoldable pub init : ℕ → System A
  init n = record {
    chan = queue n;
    producer = Producer.resting;
    consumer = Consumer.resting;
    sent = [];
    got = [];
    last = none;
  }

  -- A step of either thread.
  pub data Step (s t : System A) : Type ℓ where
    by_producer : (c : Choice A) → produce c s.producer s ≡ some t → Step s t
    by_consumer : (leaves : Bool) → consume leaves s.consumer s ≡ some t → Step s t

  pub data Reach (n : ℕ) : System A → Type ℓ where
    start : Reach n (init n)
    later : {s t : System A} → Reach n s → Step s t → Reach n t
