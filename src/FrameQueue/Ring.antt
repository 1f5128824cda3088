-- ===== src/FrameQueue/Ring.antt =====
-- What frames a queue holds, oldest first, and the two writes to the ring.
use dns_collector.Prelude.{
  ℕ, suc, ◌+◌, ◌-◌, ◌%◌, ◌^◌, ◌≤◌, ◌<◌, ◌≡◌, ◌≢◌, refl, ap, ◌∙◌, ◌⊎◌, inl, inr, sym,
  get_elem?-append_left, get_elem?-append_self, some, List, [], ◌∷◌, ◌++◌, get_elem?,
  get_elem?-set_self, get_elem?-set_ne, set, length as list_length, length-set, length-append,
  arith, add64, sub64,
}
use native.Mathlib.Decide.{dec_lt}
use native.Mathlib.Nat.{mod-add-mod, mod-eq_of_lt, mod-eq-sub-mod, add-zero}
use dns_collector.Frame.{Frame}
use dns_collector.FrameQueue.{FrameQueue, dequeue_internal, put}

-- the place of the `i`-th oldest frame
abbrev pub slot_of : FrameQueue → ℕ → ℕ
slot_of q i = (q.start + i) % q.capacity

unfoldable pub size_sum : List Frame → ℕ
size_sum [] = 0
size_sum (f ∷ fs) = f.size + size_sum fs

pub size_sum-append : (fs gs : List Frame) → size_sum (fs ++ gs) ≡ size_sum fs + size_sum gs
unfolding size_sum
size_sum-append [] gs = omega arith
size_sum-append (f ∷ fs) gs = omega (arith, size_sum-append fs gs)

-- `q` holds the frames `fs`, oldest first. The array was allocated, so its size is far below the
-- modulus of `size_t`.
pub record Holds (q : FrameQueue) (fs : List Frame) : Type 0 where
  pub allocated : list_length q.queue ≡ q.capacity
  pub small : q.capacity ≤ 2 ^ 60
  pub start_in : q.start < q.capacity
  pub length_is : q.length ≡ list_length fs
  pub fits : q.length ≤ q.capacity
  pub slots : (i : ℕ) → i < q.length → get_elem? q.queue (slot_of q i) ≡ some (get_elem? fs i)
  pub total : q.total_size ≡ size_sum fs % 2 ^ 64

mod-cases :
    (s i c : ℕ)
    → s < c
    → i < c
    → (s + i < c) × ((s + i) % c ≡ s + i) ⊎ (c ≤ s + i) × ((s + i) % c ≡ s + i - c)
mod-cases s i c h k = elim (dec_lt (s + i) c) [
  | yes p ↦ inl (p, mod-eq_of_lt p)
  | no p ↦ inr (
    omega arith,
    mod-eq-sub-mod {n = s + i} {m = c} (omega arith)
        ∙ mod-eq_of_lt {n = s + i - c} {m = c} (omega arith),
  )
]

-- Two places less than a turn apart are different slots.
slot-ne : (s i j c : ℕ) → s < c → i < j → j < c → (s + j) % c ≢ (s + i) % c
slot-ne s i j c h ij jc = omega (arith, mod-cases s i c h (omega arith), mod-cases s j c h jc)

slot-step : (s i c : ℕ) → s < c → ((s + 1) % c + i) % c ≡ (s + suc i) % c
slot-step s i c h = rw mod-add-mod (ap (λ x. x % c) (omega arith))

module _ (q : FrameQueue) (fs : List Frame) (f : Frame) (v : Holds q fs)
    (h : q.length < q.capacity) where
  put_index : add64 q.start q.length % q.capacity ≡ slot_of q q.length
  put_index = ap (λ x. x % q.capacity) (omega (arith, v.small, v.start_in))

  slots-put :
      (i : ℕ)
      → i < q.length + 1
      → get_elem? (set q.queue (slot_of q q.length) (some f)) (slot_of q i)
        ≡ some (get_elem? (fs ++ f ∷ []) i)
  slots-put i k = elim (dec_lt i q.length) [
    | yes p ↦
        rw
          (
            get_elem?-append_left fs (f ∷ []) i (omega (arith, v.length_is)),
            get_elem?-set_ne q.queue (some f)
                (slot-ne q.start i q.length q.capacity v.start_in p h),
          )
          (v.slots i p)
    | no p ↦
        let e : i ≡ q.length = omega arith in
        let inside : slot_of q q.length < list_length q.queue = omega (arith, v.allocated) in
        rw (e, get_elem?-set_self q.queue (slot_of q q.length) (some f) inside)
          (ap some (sym (rw v.length_is (get_elem?-append_self fs f []))))
  ]

-- Writing a frame into the free slot behind the others adds it as the newest.
pub put-Holds :
    (q : FrameQueue) (fs : List Frame) (f : Frame)
    → Holds q fs
    → q.length < q.capacity
    → Holds (put q f) (fs ++ f ∷ [])
unfolding put size_sum
put-Holds q fs f v h = record {
  allocated = length-set q.queue _ (some f) ∙ v.allocated;
  small = v.small;
  start_in = v.start_in;
  length_is = omega (arith, v.length_is, v.small, length-append fs (f ∷ []));
  fits = omega (arith, v.small);
  slots = λ i k. rw (put_index q fs f v h) (slots-put q fs f v h i (omega (arith, v.small)));
  total = omega (arith, v.total, size_sum-append fs (f ∷ []));
}

-- `q'` is `q` without its oldest frame.
pub record Popped (q q' : FrameQueue) (fs : List Frame) : Type 0 where
  pub holds : Holds q' fs
  pub on_full_kept : q'.on_full ≡ q.on_full
  pub capacity_kept : q'.capacity ≡ q.capacity
  pub queue_kept : q'.queue ≡ q.queue
  pub start_next : q'.start ≡ (q.start + 1) % q.capacity

-- Reading the oldest frame takes it off the front.
pub dequeue_internal-Popped :
    (q : FrameQueue) (f : Frame) (fs : List Frame)
    → Holds q (f ∷ fs)
    → (q' : FrameQueue) × (dequeue_internal q ≡ some (f, q')) × Popped q q' fs
unfolding dequeue_internal size_sum
dequeue_internal-Popped q f fs v =
    let first : get_elem? q.queue q.start ≡ some (some f) =
      rw (← slot_first) (v.slots 0 (omega (arith, v.length_is))) in
    (
      record q {
        start = add64 q.start 1 % q.capacity;
        length = sub64 q.length 1;
        total_size = sub64 q.total_size f.size;
      },
      rw first,
      record {
        holds = record {
          allocated = v.allocated;
          small = v.small;
          start_in = omega (arith, v.start_in);
          length_is = omega (arith, v.length_is, v.fits, v.small);
          fits = omega (arith, v.length_is, v.fits, v.small);
          slots = λ i k.
              rw (start_step, slot-step q.start i q.capacity v.start_in)
                (v.slots (suc i) (omega (arith, v.length_is, v.fits, v.small)));
          total = omega (arith, v.total);
        };
        on_full_kept = refl;
        capacity_kept = refl;
        queue_kept = refl;
        start_next = ap (λ x. x % q.capacity) start_step;
      },
    )
  where
    slot_first : slot_of q 0 ≡ q.start
    slot_first = rw add-zero (mod-eq_of_lt v.start_in)

    start_step : add64 q.start 1 ≡ q.start + 1
    start_step = omega (arith, v.start_in, v.small)
