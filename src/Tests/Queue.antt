-- ===== src/Tests/Queue.antt =====
-- Queues of two slots.
use dns_collector.Prelude.{◌<◌, ◌≡◌, refl, some, List, [], ◌∷◌, arith}
use dns_collector.Frame.{Frame, append_packet}
use dns_collector.Frame.Inv.{create-IsValid, append_packet-IsValid}
use dns_collector.FrameQueue.{
  make_room, make_room_step, finish_enqueue, FrameQueue, block, create, put, Enqueued, done,
  enqueue, Dequeued, dequeue, destroy, dequeue_internal,
}
use dns_collector.FrameQueue.Ring.{Holds, put-Holds}
use dns_collector.FrameQueue.Refine.{
  arrive, Agrees, Takes, create-Holds, enqueue_refines, dequeue_refines,
}
use dns_collector.FrameQueue.Monitor.{
  Monitor, start, Step, Reach, here, next, IsSound, Stuck, Reach-IsSound, not-Stuck,
}
use dns_collector.FrameQueue.Destroy.{destroy_stale}
use dns_collector.Tests.Packets.{request}

abbrev first_frame : Frame
first_frame = append_packet (dns_collector.Frame.create (some 5000) (some 5000)) request

abbrev second_frame : Frame
second_frame = dns_collector.Frame.create (some 7000) (some 9000)

append_packet-IsValid_example : dns_collector.Frame.Inv.IsValid (append_packet second_frame request)
append_packet-IsValid_example =
    append_packet-IsValid second_frame request (create-IsValid (some 7000) (some 9000))

abbrev one_frame : FrameQueue
one_frame = put (create 2 block) first_frame

Holds-none : Holds (create 2 block) []
Holds-none = create-Holds 2 block (omega arith) (omega arith)

room_for_one : (create 2 block).length < (create 2 block).capacity
unfolding create
room_for_one = omega arith

Holds-one : Holds one_frame (first_frame ∷ [])
Holds-one = put-Holds (create 2 block) [] first_frame Holds-none room_for_one

start_kept : one_frame.start ≡ 0
unfolding put create
start_kept = refl

enqueue_refines_example :
    (r : Enqueued) × (enqueue one_frame second_frame ≡ some r)
    × Agrees one_frame r
        (arrive one_frame.capacity one_frame.on_full (first_frame ∷ []) second_frame)
enqueue_refines_example = enqueue_refines one_frame (first_frame ∷ []) second_frame Holds-one

dequeue_refines_example :
    (r : Dequeued) × (dequeue one_frame ≡ some r) × Takes one_frame (first_frame ∷ []) r
dequeue_refines_example = dequeue_refines one_frame (first_frame ∷ []) Holds-one

destroy_stale_example :
    (q : FrameQueue) × (dequeue_internal (put (create 2 block) first_frame) ≡ some (first_frame, q))
    × Holds (put q second_frame) (second_frame ∷ [])
    × (destroy (put q second_frame) ≡ some (some first_frame) ∷ [])
destroy_stale_example = destroy_stale 2 first_frame second_frame (omega arith) (omega arith)

-- the state after the producer has put in a frame
abbrev after_send : Monitor
after_send = let m = start 2 in record m { queue = one_frame; sent = first_frame ∷ [] }

sent_one : enqueue (create 2 block) first_frame ≡ some (done one_frame [])
unfolding enqueue create make_room make_room_step finish_enqueue
sent_one = refl

Reach-send : Reach (start 2) after_send
Reach-send = next here (Step.send first_frame one_frame [] tt sent_one refl)

Reach-IsSound_example : (fs : List Frame) × IsSound after_send fs
Reach-IsSound_example = Reach-IsSound 2 (omega arith) (omega arith) Reach-send

not-Stuck_example : ¬ Stuck after_send
not-Stuck_example = not-Stuck 2 (omega arith) (omega arith) Reach-send
