-- ===== src/FrameQueue.antt =====
-- src/frame_queue.c: the bounded queue between two threads. A function runs with the mutex held;
-- a wait on a condition variable, which gives the mutex away, ends the run of the function, and
-- the thread starts the loop afresh when it has been woken.
pub mod Ring
pub mod Refine
pub mod Destroy
pub mod Monitor
use dns_collector.Prelude.{
  ℕ, zero, suc, ◌+◌, ◌%◌, Bool, true, false, Option, none, some, List, [], ◌∷◌, ◌++◌, ltb, leb,
  ◌==◌, if◌then◌else◌, get_elem?, set, replicate, add64, sub64, ◌>>=◌, ◌>>◌, assert,
}
use dns_collector.Frame.{Frame}

pub data OnFull : Type 0 where
  block drop_newest drop_oldest : OnFull

-- `struct dns_frame_queue`; a slot of the array is `none` until something is written to it
pub record FrameQueue : Type 0 where
  pub queue : List (Option Frame)
  pub length : ℕ
  pub start : ℕ
  pub capacity : ℕ
  pub on_full : OnFull
  pub total_size : ℕ

-- `dns_frame_queue_create`
unfoldable pub create : ℕ → OnFull → FrameQueue
create capacity on_full = record {
  queue = replicate capacity none;
  length = 0;
  start = 0;
  capacity = capacity;
  on_full = on_full;
  total_size = 0;
}

-- `dns_frame_queue_dequeue_internal`; `none` is a read of a slot that holds no frame
unfoldable pub dequeue_internal : FrameQueue → Option (Frame × FrameQueue)
dequeue_internal q = do
  slot ← get_elem? q.queue q.start
  f ← slot
  some (
    f,
    record q {
      start = add64 q.start 1 % q.capacity;
      length = sub64 q.length 1;
      total_size = sub64 q.total_size f.size;
    },
  )

-- How the loop of `dns_frame_queue_enqueue` ends: there is room for the frame, the frame was
-- destroyed, or the thread waits on `full_cond`. The list holds the frames destroyed on the way.
pub data Room : Type 0 where
  room : FrameQueue → List Frame → Room
  refused : FrameQueue → List Frame → Room
  wait : FrameQueue → List Frame → Room

-- what the loop does with a full queue
unfoldable pub when_full :
    (FrameQueue → List Frame → Option Room) → FrameQueue → List Frame → OnFull → Option Room
when_full rest q gone block = some (wait q gone)
when_full rest q gone drop_newest = some (refused q gone)
when_full rest q gone drop_oldest = do (f, q') ← dequeue_internal q; rest q' (gone ++ f ∷ [])

-- one round of the loop, with the rest of the loop as an argument
unfoldable pub make_room_step :
    (FrameQueue → List Frame → Option Room) → FrameQueue → List Frame → Option Room
unfolding when_full
make_room_step rest q gone =
    if ltb q.capacity (add64 q.length 1)
    then assert (leb 1 q.length) >> when_full rest q gone q.on_full
    else some (room q gone)

-- `while (q->length + 1 > q->capacity)`; `none` is a fault, or that the fuel ran out
unfoldable pub make_room : ℕ → FrameQueue → List Frame → Option Room
make_room zero q gone = none
make_room (suc fuel) q gone = make_room_step (make_room fuel) q gone

-- What a call of `dns_frame_queue_enqueue` has done when it gives the mutex away.
pub data Enqueued : Type 0 where
  done : FrameQueue → List Frame → Enqueued
  waiting : FrameQueue → List Frame → Enqueued

-- `q->queue[(q->start + q->length) % q->capacity] = f` with the counters
unfoldable pub put : FrameQueue → Frame → FrameQueue
put q f = record q {
  queue = set q.queue (add64 q.start q.length % q.capacity) (some f);
  length = add64 q.length 1;
  total_size = add64 q.total_size f.size;
}

unfoldable pub finish_enqueue : Frame → Room → Enqueued
unfolding put
finish_enqueue f (room q gone) = done (put q f) gone
finish_enqueue f (refused q gone) = done q (gone ++ f ∷ [])
finish_enqueue f (wait q gone) = waiting q gone

-- `dns_frame_queue_enqueue` at a queue that is not NULL; each round of its loop but the last takes
-- a frame from the queue
unfoldable pub enqueue : FrameQueue → Frame → Option Enqueued
unfolding finish_enqueue
enqueue q f = do r ← make_room (suc q.length) q []; some (finish_enqueue f r)

-- What a call of `dns_frame_queue_dequeue` has done when it gives the mutex away.
pub data Dequeued : Type 0 where
  got : Frame → FrameQueue → Dequeued
  starved : Dequeued

-- `dns_frame_queue_dequeue`
unfoldable pub dequeue : FrameQueue → Option Dequeued
dequeue q = if q.length == 0 then some starved else do (f, q') ← dequeue_internal q; some (got f q')

-- the loop of `dns_frame_queue_destroy`: what is in the slots from `i` on, `n` of them
unfoldable pub destroyed_slots : List (Option Frame) → ℕ → ℕ → List (Option (Option Frame))
destroyed_slots queue zero i = []
destroyed_slots queue (suc n) i = get_elem? queue i ∷ destroyed_slots queue n (i + 1)

-- `dns_frame_queue_destroy`: the pointers that it hands to `dns_packet_frame_destroy`, in order
unfoldable pub destroy : FrameQueue → List (Option (Option Frame))
unfolding destroyed_slots
destroy q = destroyed_slots q.queue q.length 0
