-- ===== src/FrameQueue/Destroy.antt =====
-- Which frames `dns_frame_queue_destroy` frees.
use dns_collector.Prelude.{
  ℕ, suc, ◌+◌, ◌%◌, ◌≤◌, ◌<◌, ◌≡◌, ◌≢◌, refl, ap, ap₂, ◌∙◌, ◌^◌, get_elem?-set_ne,
  get_elem?-set_self, length-replicate, Option, none, some, List, [], ◌∷◌, get_elem?,
  length as list_length, arith, map, replicate, set,
}
use native.Mathlib.Nat.{mod-eq_of_lt, add-zero, add_assoc, add_comm}
use native.Mathlib.Numerals.{add-one}
use dns_collector.Frame.{Frame}
use dns_collector.FrameQueue.{
  FrameQueue, block, create, put, destroy, destroyed_slots, dequeue_internal,
}
use dns_collector.FrameQueue.Ring.{Holds, slot_of, put-Holds, dequeue_internal-Popped}
use dns_collector.FrameQueue.Refine.{create-Holds}

slots_from :
    (queue : List (Option Frame)) (i : ℕ) (fs : List Frame)
    → ((j : ℕ) → j < list_length fs → get_elem? queue (i + j) ≡ some (get_elem? fs j))
    → destroyed_slots queue (list_length fs) i ≡ map (λ f. some (some f)) fs
unfolding destroyed_slots
slots_from queue i [] h = refl
slots_from queue i (f ∷ fs) h =
    let here : get_elem? queue i ≡ some (some f) = rw add-zero at (h 0 (omega arith)) in
    ap₂ ◌∷◌ here (
      slots_from queue (i + 1) fs
        (λ j k. rw (add_assoc, add_comm 1 j, add-one) (h (suc j) (omega arith))))

-- If the oldest frame stands at the start of the array, exactly the frames in the queue are freed,
-- each once and in order.
pub destroy_frees :
    (q : FrameQueue) (fs : List Frame)
    → Holds q fs
    → q.start ≡ 0
    → destroy q ≡ map (λ f. some (some f)) fs
unfolding destroy
destroy_frees q fs v s = rw v.length_is (
    slots_from q.queue 0 fs λ j k.
      let here : j < q.length = omega (arith, v.length_is) in
      let place : slot_of q j ≡ 0 + j =
        ap (λ x. (x + j) % q.capacity) s ∙ mod-eq_of_lt (omega (arith, v.fits)) ∙ refl in
      rw (← place) (v.slots j here))

-- A queue of two slots or more, through which one frame has passed and in which another one is
-- queued: what is freed is the frame that was handed over, and not the one that is queued.
pub destroy_stale :
    (capacity : ℕ) (f g : Frame)
    → 2 ≤ capacity
    → capacity ≤ 2 ^ 60
    → (q : FrameQueue) × (dequeue_internal (put (create capacity block) f) ≡ some (f, q))
      × Holds (put q g) (g ∷ [])
      × (destroy (put q g) ≡ some (some f) ∷ [])
unfolding destroy put create destroyed_slots
destroy_stale capacity f g two small =
    let v =
      put-Holds (create capacity block) [] f (create-Holds capacity block (omega arith) small)
        (omega arith) in
    let (q, ran, t) = dequeue_internal-Popped (put (create capacity block) f) f [] v in
    let zero_mod : 0 % capacity ≡ 0 = mod-eq_of_lt (omega arith) in
    let one_mod : 1 % capacity ≡ 1 = mod-eq_of_lt two in
    let one_ne_zero : ◌≢◌ {A = ℕ} 1 0 = omega arith in
    let empty : q.length ≡ 0 = t.holds.length_is in
    let second : q.start ≡ 1 = t.start_next ∙ mod-eq_of_lt two in
    (
      q,
      ran,
      put-Holds q [] g t.holds (omega (arith, empty, t.capacity_kept)),
      simp (empty, second, t.queue_kept, t.capacity_kept, zero_mod, one_mod)
          (ap (λ x. x ∷ [])
            (get_elem?-set_ne (set (replicate capacity none) 0 (some f)) (some g) one_ne_zero
              ∙ get_elem?-set_self (replicate capacity none) 0 (some f)
                  (rw length-replicate (omega arith)))),
    )
