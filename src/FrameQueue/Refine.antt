-- ===== src/FrameQueue/Refine.antt =====
-- The queue as a bounded first-in first-out list, with what becomes of a frame when it is full.
use dns_collector.Prelude.{
  ℕ, suc, ◌^◌, ◌≤◌, ◌<◌, ◌≡◌, refl, ◌∙◌, none, some, List, [], ◌∷◌, ◌++◌, length as list_length,
  arith, ltb, lt→ltb, le→ltb, if◌then◌else◌, length-replicate,
}
use native.Mathlib.Decide.{dec_lt}
use dns_collector.Frame.{Frame}
use dns_collector.FrameQueue.{
  FrameQueue, OnFull, block, drop_newest, drop_oldest, room, make_room, make_room_step, when_full,
  put, Enqueued, done, waiting, enqueue, Dequeued, got, starved, dequeue, create,
}
use dns_collector.FrameQueue.Ring.{Holds, put-Holds, dequeue_internal-Popped, size_sum}

pub data Outcome : Type 0 where
  accepted : List Frame → List Frame → Outcome
  blocked : Outcome

-- The queue is full: the frames that stay, and those that are destroyed.
unfoldable pub overflow : OnFull → List Frame → Frame → Outcome
overflow block fs f = blocked
overflow drop_newest fs f = accepted fs (f ∷ [])
overflow drop_oldest [] f = accepted (f ∷ []) []
overflow drop_oldest (g ∷ fs) f = accepted (fs ++ f ∷ []) (g ∷ [])

-- a frame arrives at a queue of the given capacity
unfoldable pub arrive : ℕ → OnFull → List Frame → Frame → Outcome
unfolding overflow
arrive capacity on_full fs f =
    if ltb (list_length fs) capacity then accepted (fs ++ f ∷ []) [] else overflow on_full fs f

-- the queue `q'` is `q` with other frames
pub record Kept (q q' : FrameQueue) (fs : List Frame) : Type 0 where
  pub holds : Holds q' fs
  pub on_full_kept : q'.on_full ≡ q.on_full
  pub capacity_kept : q'.capacity ≡ q.capacity

-- What the code returned is what the list does.
abbrev pub Agrees : FrameQueue → Enqueued → Outcome → Type 0
Agrees q (done q' gone) (accepted fs' gone') = Kept q q' fs' × (gone ≡ gone')
Agrees q (waiting q' gone) blocked = (q' ≡ q) × (gone ≡ [])
Agrees q _ _ = ⊥

make_room-room :
    (fuel : ℕ) (q : FrameQueue) (gone : List Frame)
    → q.length < q.capacity
    → q.capacity ≤ 2 ^ 60
    → make_room (suc fuel) q gone ≡ some (room q gone)
unfolding make_room make_room_step
make_room-room fuel q gone h s = ground arith

-- The loop at a full queue comes to the policy at once.
make_room-full :
    (fuel : ℕ) (q : FrameQueue) (gone : List Frame)
    → q.length ≡ q.capacity
    → 0 < q.capacity
    → q.capacity ≤ 2 ^ 60
    → make_room (suc fuel) q gone ≡ when_full (make_room fuel) q gone q.on_full
unfolding make_room make_room_step
make_room-full fuel q gone h p s = ground arith

room-Kept :
    (q : FrameQueue) (fs : List Frame) (f : Frame)
    → Holds q fs
    → q.length < q.capacity
    → Kept q (put q f) (fs ++ f ∷ [])
unfolding put
room-Kept q fs f v h = record {
  holds = put-Holds q fs f v h;
  on_full_kept = refl;
  capacity_kept = refl;
}

abbrev Accepts : FrameQueue → List Frame → Frame → Type 0
Accepts q fs f =
    (r : Enqueued) × (enqueue q f ≡ some r) × Agrees q r (arrive q.capacity q.on_full fs f)

module _ (q : FrameQueue) (f : Frame) where
  Accepts-room : (fs : List Frame) → Holds q fs → list_length fs < q.capacity → Accepts q fs f
  unfolding enqueue arrive
  Accepts-room fs v h =
      let free : q.length < q.capacity = omega (arith, v.length_is) in
      (
        done (put q f) [],
        rw (make_room-room q.length q [] free v.small),
        rw (lt→ltb _ _ h) (room-Kept q fs f v free, refl),
      )

  Accepts-full :
      (fs : List Frame) (o : OnFull)
      → q.on_full ≡ o
      → Holds q fs
      → q.capacity ≤ list_length fs
      → Accepts q fs f
  unfolding enqueue arrive overflow when_full
  Accepts-full fs block e v h = (
    waiting q [],
    rw (
      make_room-full q.length q [] (omega (arith, v.length_is, v.fits)) (omega (arith, v.start_in))
          v.small,
      e,
    ),
    rw (le→ltb _ _ h, e) (refl, refl),
  )
  Accepts-full fs drop_newest e v h = (
    done q (f ∷ []),
    rw (
      make_room-full q.length q [] (omega (arith, v.length_is, v.fits)) (omega (arith, v.start_in))
          v.small,
      e,
    ),
    simp (le→ltb _ _ h, e) (record { holds = v; on_full_kept = refl; capacity_kept = refl }, refl),
  )
  Accepts-full [] drop_oldest e v h = absurd (omega (arith, v.start_in))
  Accepts-full (g ∷ fs) drop_oldest e v h =
      let full : q.length ≡ q.capacity = omega (arith, v.length_is, v.fits) in
      let (q', ran, t) = dequeue_internal-Popped q g fs v in
      let free : q'.length < q'.capacity =
        omega (arith, t.holds.length_is, t.capacity_kept, v.length_is, v.fits) in
      let one_less : q.length ≡ suc q'.length = omega (arith, t.holds.length_is, v.length_is) in
      let k = room-Kept q' fs f t.holds free in
      (
        done (put q' f) (g ∷ []),
        simp
            (
              make_room-full q.length q [] full (omega (arith, v.start_in)) v.small,
              e,
              when_full,
              ran,
            )
            (rw one_less (rw (make_room-room q'.length q' (g ∷ []) free t.holds.small))),
        simp (le→ltb _ _ h, e)
            (
              record {
                holds = k.holds;
                on_full_kept = k.on_full_kept ∙ t.on_full_kept;
                capacity_kept = k.capacity_kept ∙ t.capacity_kept;
              },
              refl,
            ),
      )

-- A new queue of a capacity from 1 to 2^60 holds no frame.
pub create-Holds :
    (capacity : ℕ) (o : OnFull) → 0 < capacity → capacity ≤ 2 ^ 60 → Holds (create capacity o) []
unfolding create size_sum
create-Holds capacity o h s = record {
  allocated = length-replicate capacity none;
  small = s;
  start_in = h;
  length_is = refl;
  fits = omega arith;
  slots = λ i k. elim k [ ];
  total = omega arith;
}

-- A call of `dns_frame_queue_enqueue` at a queue that holds `fs` does not fault, its loop ends, and
-- it does what the policy says: with room the frame becomes the newest and none is destroyed; a
-- full queue makes the caller wait and is left as it is, destroys the new frame, or destroys the
-- oldest one to take the new one.
pub enqueue_refines :
    (q : FrameQueue) (fs : List Frame) (f : Frame)
    → Holds q fs
    → (r : Enqueued) × (enqueue q f ≡ some r) × Agrees q r (arrive q.capacity q.on_full fs f)
enqueue_refines q fs f v = elim (dec_lt (list_length fs) q.capacity) [
  | yes h ↦ Accepts-room q f fs v h
  | no h ↦ Accepts-full q f fs q.on_full refl v (omega arith)
]

-- What `dns_frame_queue_dequeue` returns at a queue that holds the given frames.
abbrev pub Takes : FrameQueue → List Frame → Dequeued → Type 0
Takes q [] starved = Unit
Takes q (f ∷ fs) (got g q') = (g ≡ f) × Kept q q' fs
Takes q _ _ = ⊥

-- A call of `dns_frame_queue_dequeue` does not fault: it waits at an empty queue, and from any other
-- it takes the oldest frame and leaves the rest in order.
pub dequeue_refines :
    (q : FrameQueue) (fs : List Frame)
    → Holds q fs
    → (r : Dequeued) × (dequeue q ≡ some r) × Takes q fs r
unfolding dequeue
dequeue_refines q [] v = let e : q.length ≡ 0 = v.length_is in (starved, ground (arith, e), tt)
dequeue_refines q (f ∷ fs) v =
    let (q', ran, t) = dequeue_internal-Popped q f fs v in
    let some_length : q.length ≡ suc (list_length fs) = v.length_is in
    (
      got f q',
      ground (arith, some_length, ran),
      (
        refl,
        record { holds = t.holds; on_full_kept = t.on_full_kept; capacity_kept = t.capacity_kept },
      ),
    )
