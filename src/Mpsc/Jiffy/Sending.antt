-- ===== src/Mpsc/Jiffy/Sending.antt =====
-- What a send does to the buffers of src/queues/mpsc/jiffy.rs.
use nolock.Prelude.{
  ℕ, suc, ◌+◌, ◌-◌, ◌*◌, ◌^◌, ◌<◌, ◌≤◌, ◌≡◌, refl, sym, ap, ◌∙◌, true, false, none, some, List, [],
  ◌∷◌, ◌++◌, length, get_elem?, set, arith, length-append, length-set, Bool, leb, ltb, ◌&&◌, ◌==◌,
  add_usize, if◌then◌else◌, err, dec_lt, ℕ_discrete, ok, ◌>>=◌,
}
use nolock.Queues.{EnqueueError}
use nolock.Mpsc.Node.{Node, store}
use nolock.Mpsc.BufferList.{BufferList, Memory, allocate_next}
use nolock.Mpsc.Jiffy.{Channel, put, walk_on, walk_back, fill, enqueue, reserve}
use nolock.Mpsc.Jiffy.Holds.{Layout, Holds}
use nolock.Mpsc.Jiffy.Writing.{store-Layout, allocate_next-Layout}

module _ {ℓ} (size : ℕ) {A : Type ℓ} {b : BufferList A} (m : Memory A) where
  walk_on_here :
      (fuel t p location : ℕ)
      → get_elem? m p ≡ some (some b)
      → location < b.position_in_queue * size
      → walk_on size (suc fuel) m t p location ≡ some (p, m, t)
  unfolding walk_on
  walk_on_here fuel t p location found lt =
      let inside : leb (b.position_in_queue * size) location ≡ false = ground arith in
      rw (walk_on, found, ◌>>=◌, inside) refl

  walk_back_here :
      (fuel p location : ℕ) (last_buffer : Bool)
      → get_elem? m p ≡ some (some b)
      → (b.position_in_queue - 1) * size ≤ location
      → walk_back size (suc fuel) m p location last_buffer ≡ some (p, last_buffer)
  unfolding walk_back
  walk_back_here fuel p location last_buffer found le =
      let inside : ltb location ((b.position_in_queue - 1) * size) ≡ false = ground arith in
      rw (walk_back, found, ◌>>=◌, inside) refl

  walk_back_one :
      (fuel p q location : ℕ) (last_buffer : Bool)
      → get_elem? m p ≡ some (some b)
      → b.previous ≡ some q
      → location < (b.position_in_queue - 1) * size
      → walk_back size (suc fuel) m p location last_buffer ≡ walk_back size fuel m q location false
  unfolding walk_back
  walk_back_one fuel p q location last_buffer found previous lt =
      let before : ltb location ((b.position_in_queue - 1) * size) ≡ true = ground arith in
      rw (walk_back, found, ◌>>=◌, before, previous) refl

module _ {ℓ} (size : ℕ) {A : Type ℓ} {b : BufferList A} (s : Channel A) where
  -- The end of `fill`, once the place is found.
  fill_plain :
      (fuel location index : ℕ) (x : A) {p q : ℕ} {n : Node A} (last_buffer : Bool)
      → walk_on size fuel s.memory s.tail_of_queue s.tail_of_queue location
        ≡ some (p, s.memory, s.tail_of_queue)
      → walk_back size fuel s.memory p location true ≡ some (q, last_buffer)
      → get_elem? s.memory q ≡ some (some b)
      → location - (b.position_in_queue - 1) * size ≡ index
      → get_elem? b.buffer index ≡ some n
      → (last_buffer && (index == 2)) ≡ false
      → fill size fuel s location x
        ≡ some (record s {
          memory = set s.memory q (some (record b { buffer = set b.buffer index (store n x) }));
        })
  unfolding fill put
  fill_plain fuel location index x last_buffer on back found at entry plain =
      rw (fill, on, ◌>>=◌, back, found, at, entry, plain) refl

  fill_third :
      (fuel location : ℕ) (x : A) {p q t : ℕ} {n : Node A} {m : Memory A}
      → walk_on size fuel s.memory s.tail_of_queue s.tail_of_queue location
        ≡ some (p, s.memory, s.tail_of_queue)
      → walk_back size fuel s.memory p location true ≡ some (q, true)
      → get_elem? s.memory q ≡ some (some b)
      → location - (b.position_in_queue - 1) * size ≡ 2
      → get_elem? b.buffer 2 ≡ some n
      → allocate_next size
          (set s.memory q (some (record b { buffer = set b.buffer 2 (store n x) })))
          q
          s.tail_of_queue
        ≡ some (t, m, t)
      → fill size fuel s location x ≡ some (record s { memory = m; tail_of_queue = t })
  unfolding fill put
  fill_third fuel location x on back found at entry made =
      rw (fill, on, ◌>>=◌, back, found, at, entry, made) refl

enqueue_open {ℓ} :
    {A : Type ℓ} (size fuel : ℕ) (s : Channel A) (x : A) {s2 : Channel A}
    → s.closed ≡ false
    → fill size fuel (record s { tail = add_usize s.tail 1 }) s.tail x ≡ some s2
    → enqueue size fuel s x ≡ some (ok tt, s2)
unfolding enqueue reserve
enqueue_open size fuel s x still e =
    ap
      (λ b.
        if b
        then some (err (x, EnqueueError.closed), s)
        else (fill size fuel (record s { tail = add_usize s.tail 1 }) s.tail x >>= λ s2.
            some (ok tt, s2)))
      still
    ∙ ap (λ o. o >>= λ s2. some (ok tt, s2)) e

-- Where a send has stored its item.
abbrev pub Filled {ℓ} : {A : Type ℓ} → ℕ → ℕ → ℕ → List A → ℕ → Channel A → ℕ → A → Type ℓ
Filled {A} size c hb l fuel s location x =
    (m : Memory A) × (t : ℕ) × (fill size fuel s location x
      ≡ some (record s { memory = m; tail_of_queue = t }))
    × (suc t ≡ length m)
    × (c + suc (length l) + size ≤ length m * size + 2)
    × (length m * size ≤ c + suc (length l) + size * 2)
    × Layout size c hb (l ++ (x ∷ [])) m

module _ {ℓ} {A : Type ℓ} {size c hb : ℕ} (big : 3 ≤ size) {l : List A} where
  -- The place is in the buffer before the last one.
  fill_before :
      (fuel : ℕ) (s : Channel A) (x : A) (location q : ℕ)
      → Layout size c hb l s.memory
      → location ≡ c + length l
      → suc s.tail_of_queue ≡ length s.memory
      → location + size ≤ length s.memory * size + 2
      → length s.memory * size ≤ location + size * 2
      → location < s.tail_of_queue * size
      → suc q ≡ s.tail_of_queue
      → hb ≤ q
      → Filled size c hb l (suc (suc fuel)) s location x
  unfolding store
  fill_before fuel s x location q lay at end reach near before prev from =
      let (bt, ft, ht) = lay.buffers s.tail_of_queue (omega arith) (omega arith) in
      let e1 = ap (λ k. k * size) end in
      let e2 = ap (λ k. k * size) prev in
      let e3 = ap (λ k. k * size) ht.position in
      let e4 : (bt.position_in_queue - 1) * size ≡ s.tail_of_queue * size =
        ap (λ k. k * size) (omega (arith, ht.position)) in
      let (b, found, pos, entry, lay') =
        store-Layout q (location - q * size) x lay from (omega arith) (omega (arith, e2))
          (omega (arith, e1, e2)) in
      let e5 : (b.position_in_queue - 1) * size ≡ q * size =
        ap (λ k. k * size) (omega (arith, pos)) in
      let m1 : Memory A = set s.memory q (
        some (record b {
          buffer =
              set b.buffer (location - q * size) (store (record { content = none; is_set = 0 }) x);
        })) in
      let same : length m1 ≡ length s.memory = length-set s.memory q _ in
      let e6 = ap (λ k. k * size) same in
      (
        m1,
        s.tail_of_queue,
        fill_plain size s (suc (suc fuel)) location (location - q * size) x false
            (walk_on_here size s.memory (suc fuel) s.tail_of_queue s.tail_of_queue location ft
              (omega (arith, e1, e3)))
            (walk_back_one size s.memory (suc fuel) s.tail_of_queue q location true ft
                (ht.behind q (sym prev) from) (omega (arith, e4))
              ∙ walk_back_here size s.memory fuel q location false found
                  (omega (arith, e1, e2, e5)))
            found (ap (λ k. location - k) e5) entry refl,
        end ∙ sym same,
        omega (arith, e1, e6),
        omega (arith, e1, e6),
        lay',
      )

  -- The place is in the last buffer, which gets one behind it with its third entry.
  fill_last :
      (fuel : ℕ) (s : Channel A) (x : A) (location : ℕ)
      → Layout size c hb l s.memory
      → location ≡ c + length l
      → suc s.tail_of_queue ≡ length s.memory
      → location + size ≤ length s.memory * size + 2
      → s.tail_of_queue * size ≤ location
      → Filled size c hb l (suc (suc fuel)) s location x
  unfolding store
  fill_last fuel s x location lay at end reach from =
      let t : ℕ = s.tail_of_queue in
      let e1 = ap (λ k. k * size) end in
      let (b, found, pos, entry, lay') =
        store-Layout t (location - t * size) x lay (omega (arith, lay.head_in)) (omega arith)
          (omega (arith, e1)) (omega (arith, e1)) in
      let e3 = ap (λ k. k * size) pos in
      let e5 : (b.position_in_queue - 1) * size ≡ t * size =
        ap (λ k. k * size) (omega (arith, pos)) in
      let on = walk_on_here size s.memory (suc fuel) t t location found (omega (arith, e1, e3)) in
      let back =
        walk_back_here size s.memory (suc fuel) t location true found (omega (arith, e5)) in
      let place = ap (λ k. location - k) e5 in
      let m1 : Memory A = set s.memory t (
        some (record b {
          buffer =
              set b.buffer (location - t * size) (store (record { content = none; is_set = 0 }) x);
        })) in
      let same : length m1 ≡ length s.memory = length-set s.memory t _ in
      let e6 = ap (λ k. k * size) same in
      elim (ℕ_discrete (location - t * size) 2) [
        | no other ↦ (
          m1,
          t,
          fill_plain size s (suc (suc fuel)) location (location - t * size) x true on back found
              place entry (ground arith),
          end ∙ sym same,
          omega (arith, e1, e6),
          omega (arith, e1, e6),
          lay',
        )
        | yes third ↦
            let (m, made, longer, lay2) =
              allocate_next-Layout t lay' (end ∙ sym same) (omega (arith, lay.head_in))
                (omega (arith, e1, e6, length-append l (x ∷ []))) in
            let e7 = ap (λ k. k * size) longer in
            (
              m,
              suc t,
              fill_third size s (suc (suc fuel)) location x on back found (place ∙ third)
                  (ap (get_elem? b.buffer) (sym third) ∙ entry)
                  (ap
                      (λ i.
                        allocate_next size
                          (set s.memory t (
                            some (record b {
                              buffer =
                                  set b.buffer i (store (record { content = none; is_set = 0 }) x);
                            })))
                          t t)
                      (sym third)
                    ∙ made),
              omega (arith, end, same, longer),
              omega (arith, e1, e6, e7),
              omega (arith, e1, e6, e7),
              lay2,
            )
      ]

  fill-Holds :
      (fuel : ℕ) (s : Channel A) (location : ℕ) (x : A)
      → Holds size c hb l (record s { tail = location })
      → Filled size c hb l (suc (suc fuel)) s location x
  fill-Holds fuel s location x h =
      let t : ℕ = s.tail_of_queue in
      let inside : hb ≤ t = omega (arith, h.layout.head_in, h.last_at) in
      elim (dec_lt location (t * size)) [
        | no ge ↦
            fill_last fuel s x location h.layout h.tail_at h.last_at
              (omega (arith, h.tail_at, h.reach)) (omega arith)
        | yes lt ↦ elim (ℕ_discrete hb t) [
          | yes only ↦ absurd (omega (arith, ap (λ k. k * size) only, h.from, h.tail_at))
          | no more ↦
              fill_before fuel s x location (t - 1) h.layout h.tail_at h.last_at
                (omega (arith, h.tail_at, h.reach)) (omega (arith, h.tail_at, h.near)) lt
                (omega arith) (omega arith)
        ]
      ]

  -- An item behind the others.
  pub enqueue-Holds :
      (fuel : ℕ) (s : Channel A) (x : A)
      → Holds size c hb l s
      → s.closed ≡ false
      → c + length l + 1 < 2 ^ 64
      → (s' : Channel A) × (enqueue size (suc (suc fuel)) s x ≡ some (ok tt, s'))
        × (s'.closed ≡ false)
        × Holds size c hb (l ++ (x ∷ [])) s'
  unfolding enqueue reserve
  enqueue-Holds fuel s x h still few =
      let s1 : Channel A = record s { tail = add_usize s.tail 1 } in
      let (m, t, e, end, reach, near, lay) = fill-Holds fuel s1 s.tail x h in
      (
        record s1 { memory = m; tail_of_queue = t },
        enqueue_open size (suc (suc fuel)) s x still e,
        still,
        record {
          tail_at = omega (arith, h.tail_at, length-append l (x ∷ []));
          head_at = h.head_at;
          last_at = end;
          reach = omega (arith, reach, length-append l (x ∷ []));
          near = omega (arith, near, length-append l (x ∷ []));
          from = h.from;
          to = h.to;
          layout = lay;
        },
      )
