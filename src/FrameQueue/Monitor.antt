-- ===== src/FrameQueue/Monitor.antt =====
-- One producer thread and one consumer thread at a queue that blocks when it is full, as `main`
-- sets them up. A step is what a thread does from taking the mutex to giving it away, or a wake-up
-- of a sleeping thread for no reason, which POSIX allows. `pthread_cond_broadcast` wakes the other
-- thread if it sleeps.
use dns_collector.Prelude.{
  ℕ, ◌≡◌, ◌<◌, ◌≤◌, ◌^◌, refl, Bool-cases, inl, inr, subst, ◌∙◌, sym, ap, some, List, [], ◌∷◌, ◌++◌,
  append_assoc, arith, ltb, length as list_length,
}
use mathlib.Core.Option.{some-injective}
use dns_collector.Frame.{Frame}
use dns_collector.FrameQueue.{
  FrameQueue, block, create, Enqueued, done, waiting, enqueue, Dequeued, got, starved, dequeue,
}
use dns_collector.FrameQueue.Ring.{Holds}
use dns_collector.FrameQueue.Refine.{
  overflow, arrive, Kept, Agrees, Takes, create-Holds, enqueue_refines, dequeue_refines,
}

-- the producer: not in `enqueue`, asleep on `full_cond` with a frame, or woken with it
pub data Producer : Type 0 where
  idle : Producer
  asleep : Frame → Producer
  woken : Frame → Producer

-- the consumer: not in `dequeue`, asleep on `empty_cond`, or woken
pub data Consumer : Type 0 where
  idle asleep woken : Consumer

abbrev wake_producer : Producer → Producer
wake_producer (Producer.asleep f) = Producer.woken f
wake_producer other = other

abbrev wake_consumer : Consumer → Consumer
wake_consumer Consumer.asleep = Consumer.woken
wake_consumer other = other

-- the producer can run its loop with the frame `f`
abbrev CanSend : Producer → Frame → Type 0
CanSend Producer.idle f = Unit
CanSend (Producer.asleep g) f = ⊥
CanSend (Producer.woken g) f = f ≡ g

abbrev CanReceive : Consumer → Type 0
CanReceive Consumer.idle = Unit
CanReceive Consumer.asleep = ⊥
CanReceive Consumer.woken = Unit

-- the queue and the threads, with the frames that have gone in and come out so far
pub record Monitor : Type 0 where
  pub queue : FrameQueue
  pub producer : Producer
  pub consumer : Consumer
  pub sent : List Frame
  pub received : List Frame

abbrev pub start : ℕ → Monitor
start capacity = record {
  queue = create capacity block;
  producer = Producer.idle;
  consumer = Consumer.idle;
  sent = [];
  received = [];
}

pub data Step (m m' : Monitor) : Type 0 where
  send :
      (f : Frame) (q : FrameQueue) (gone : List Frame)
      → CanSend m.producer f
      → enqueue m.queue f ≡ some (done q gone)
      → m' ≡ record m {
        queue = q;
        producer = Producer.idle;
        consumer = wake_consumer m.consumer;
        sent = m.sent ++ f ∷ [];
      }
      → Step m m'
  send_wait :
      (f : Frame) (q : FrameQueue) (gone : List Frame)
      → CanSend m.producer f
      → enqueue m.queue f ≡ some (waiting q gone)
      → m' ≡ record m { queue = q; producer = Producer.asleep f }
      → Step m m'
  receive :
      (f : Frame) (q : FrameQueue)
      → CanReceive m.consumer
      → dequeue m.queue ≡ some (got f q)
      → m' ≡ record m {
        queue = q;
        producer = wake_producer m.producer;
        consumer = Consumer.idle;
        received = m.received ++ f ∷ [];
      }
      → Step m m'
  receive_wait :
      CanReceive m.consumer
      → dequeue m.queue ≡ some starved
      → m' ≡ record m { consumer = Consumer.asleep }
      → Step m m'
  spurious_send : m' ≡ record m { producer = wake_producer m.producer } → Step m m'
  spurious_receive : m' ≡ record m { consumer = wake_consumer m.consumer } → Step m m'

pub data Reach (m : Monitor) : Monitor → Type 0 where
  here : Reach m m
  next : {m' m'' : Monitor} → Reach m m' → Step m' m'' → Reach m m''

-- A thread sleeps only while it has a reason to.
abbrev ProducerSound : FrameQueue → Producer → Type 0
ProducerSound q (Producer.asleep f) = q.length ≡ q.capacity
ProducerSound q _ = Unit

abbrev ConsumerSound : FrameQueue → Consumer → Type 0
ConsumerSound q Consumer.asleep = q.length ≡ 0
ConsumerSound q _ = Unit

pub record IsSound (m : Monitor) (fs : List Frame) : Type 0 where
  pub holds : Holds m.queue fs
  pub blocks : m.queue.on_full ≡ block
  pub in_order : m.sent ≡ m.received ++ fs
  pub producer_awake : ProducerSound m.queue m.producer
  pub consumer_awake : ConsumerSound m.queue m.consumer

-- what a finished call of `enqueue` has done at a queue that blocks
Agrees-done :
    (q q' : FrameQueue) (gone fs : List Frame) (f : Frame) (capacity : ℕ)
    → Agrees q (done q' gone) (arrive capacity block fs f)
    → Kept q q' (fs ++ f ∷ [])
unfolding arrive overflow
Agrees-done q q' gone fs f capacity h = elim (Bool-cases (ltb (list_length fs) capacity)) [
  | inl e ↦ (rw e at h).0
  | inr e ↦ absurd (rw e at h)
]

Agrees-waiting :
    (q q' : FrameQueue) (gone fs : List Frame) (f : Frame) (capacity : ℕ)
    → Agrees q (waiting q' gone) (arrive capacity block fs f)
    → (q' ≡ q) × (capacity ≤ list_length fs)
unfolding arrive overflow
Agrees-waiting q q' gone fs f capacity h = elim (Bool-cases (ltb (list_length fs) capacity)) [
  | inl e ↦ absurd (rw e at h)
  | inr e ↦ ((rw e at h).0, ground arith)
]

module _ (m : Monitor) (fs : List Frame) (v : IsSound m fs) where
  enqueue-Agrees :
      (f : Frame) (r : Enqueued)
      → enqueue m.queue f ≡ some r
      → Agrees m.queue r (arrive m.queue.capacity block fs f)
  enqueue-Agrees f r e =
      let (r', e', a) = enqueue_refines m.queue fs f v.holds in
      let same : r' ≡ r = some-injective r' r (sym e' ∙ e) in
      subst (λ x. Agrees m.queue x (arrive m.queue.capacity block fs f)) same
        (subst (λ o. Agrees m.queue r' (arrive m.queue.capacity o fs f)) v.blocks a)

  dequeue-Takes : (r : Dequeued) → dequeue m.queue ≡ some r → Takes m.queue fs r
  dequeue-Takes r e =
      let (r', e', a) = dequeue_refines m.queue fs v.holds in
      subst (λ x. Takes m.queue fs x) (some-injective r' r (sym e' ∙ e)) a

Takes-got :
    (q q' : FrameQueue) (fs : List Frame) (f : Frame)
    → Takes q fs (got f q')
    → (gs : List Frame) × (fs ≡ f ∷ gs) × Kept q q' gs
Takes-got q q' [] f h = absurd h
Takes-got q q' (g ∷ gs) f h = (gs, ap (λ x. x ∷ gs) (sym h.0), h.1)

Takes-starved : (q : FrameQueue) (fs : List Frame) → Takes q fs starved → fs ≡ []
Takes-starved q [] h = refl
Takes-starved q (g ∷ gs) h = absurd h

woken-Sound : (q : FrameQueue) (p : Producer) → ProducerSound q (wake_producer p)
woken-Sound q Producer.idle = tt
woken-Sound q (Producer.asleep f) = tt
woken-Sound q (Producer.woken f) = tt

awake-Sound : (q : FrameQueue) (c : Consumer) → ConsumerSound q (wake_consumer c)
awake-Sound q Consumer.idle = tt
awake-Sound q Consumer.asleep = tt
awake-Sound q Consumer.woken = tt

-- a thread that runs its loop does not sleep, so it says nothing of the queue
consumer_free : (q : FrameQueue) (c : Consumer) → CanReceive c → ConsumerSound q c
consumer_free q Consumer.idle h = tt
consumer_free q Consumer.asleep h = absurd h
consumer_free q Consumer.woken h = tt

start-IsSound : (capacity : ℕ) → 0 < capacity → capacity ≤ 2 ^ 60 → IsSound (start capacity) []
unfolding create
start-IsSound capacity h s = record {
  holds = create-Holds capacity block h s;
  blocks = refl;
  in_order = refl;
  producer_awake = tt;
  consumer_awake = tt;
}

Step-IsSound :
    {m m' : Monitor} (fs : List Frame)
    → IsSound m fs
    → Step m m'
    → (fs' : List Frame) × IsSound m' fs'
Step-IsSound {m} fs v (send f q gone can e s) =
    let k = Agrees-done m.queue q gone fs f m.queue.capacity (enqueue-Agrees m fs v f _ e) in
    (
      fs ++ f ∷ [],
      subst (λ x. IsSound x (fs ++ f ∷ [])) (sym s)
          (record {
            holds = k.holds;
            blocks = k.on_full_kept ∙ v.blocks;
            in_order = ap (λ x. x ++ f ∷ []) v.in_order ∙ append_assoc m.received fs (f ∷ []);
            producer_awake = tt;
            consumer_awake = awake-Sound q m.consumer;
          }),
    )
Step-IsSound {m} fs v (send_wait f q gone can e s) =
    let (same, full) =
      Agrees-waiting m.queue q gone fs f m.queue.capacity (enqueue-Agrees m fs v f _ e) in
    (
      fs,
      subst (λ x. IsSound x fs) (sym s)
          (subst (λ x. IsSound (record m { queue = x; producer = Producer.asleep f }) fs) (sym same)
            (record {
              holds = v.holds;
              blocks = v.blocks;
              in_order = v.in_order;
              producer_awake = omega (arith, v.holds.length_is, v.holds.fits);
              consumer_awake = v.consumer_awake;
            })),
    )
Step-IsSound {m} fs v (receive f q can e s) =
    let (gs, front, k) = Takes-got m.queue q fs f (dequeue-Takes m fs v _ e) in
    (
      gs,
      subst (λ x. IsSound x gs) (sym s)
          (record {
            holds = k.holds;
            blocks = k.on_full_kept ∙ v.blocks;
            in_order =
                v.in_order
                ∙ ap (λ x. m.received ++ x) front
                ∙ sym (append_assoc m.received (f ∷ []) gs);
            producer_awake = woken-Sound q m.producer;
            consumer_awake = tt;
          }),
    )
Step-IsSound {m} fs v (receive_wait can e s) =
    let empty = Takes-starved m.queue fs (dequeue-Takes m fs v _ e) in
    (
      fs,
      subst (λ x. IsSound x fs) (sym s)
          (record {
            holds = v.holds;
            blocks = v.blocks;
            in_order = v.in_order;
            producer_awake = v.producer_awake;
            consumer_awake = v.holds.length_is ∙ ap list_length empty;
          }),
    )
Step-IsSound {m} fs v (spurious_send s) = (
  fs,
  subst (λ x. IsSound x fs) (sym s)
      (record {
        holds = v.holds;
        blocks = v.blocks;
        in_order = v.in_order;
        producer_awake = woken-Sound m.queue m.producer;
        consumer_awake = v.consumer_awake;
      }),
)
Step-IsSound {m} fs v (spurious_receive s) = (
  fs,
  subst (λ x. IsSound x fs) (sym s)
      (record {
        holds = v.holds;
        blocks = v.blocks;
        in_order = v.in_order;
        producer_awake = v.producer_awake;
        consumer_awake = awake-Sound m.queue m.consumer;
      }),
)

-- In every state that the two threads can reach the queue holds exactly the frames that went in and
-- have not come out, in order; a sleeping producer stands before a full queue, and a sleeping
-- consumer before an empty one.
pub Reach-IsSound :
    (capacity : ℕ) {m : Monitor}
    → 0 < capacity
    → capacity ≤ 2 ^ 60
    → Reach (start capacity) m
    → (fs : List Frame) × IsSound m fs
Reach-IsSound capacity h s here = ([], start-IsSound capacity h s)
Reach-IsSound capacity h s (next r st) =
    let (fs, v) = Reach-IsSound capacity h s r in Step-IsSound fs v st

-- both threads sleep
abbrev pub Stuck : Monitor → Type 0
Stuck m = (f : Frame) × (m.producer ≡ Producer.asleep f) × (m.consumer ≡ Consumer.asleep)

-- The two threads never sleep both at once: no wake-up is lost.
pub not-Stuck :
    (capacity : ℕ) {m : Monitor}
    → 0 < capacity
    → capacity ≤ 2 ^ 60
    → Reach (start capacity) m
    → ¬ Stuck m
not-Stuck capacity {m} h s r (f, p, c) =
    let (fs, v) = Reach-IsSound capacity h s r in
    let full : m.queue.length ≡ m.queue.capacity =
      subst (ProducerSound m.queue) p v.producer_awake in
    let empty : m.queue.length ≡ 0 = subst (ConsumerSound m.queue) c v.consumer_awake in
    omega (arith, full, empty, v.holds.start_in)
