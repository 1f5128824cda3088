-- ===== src/Tests/Run.antt =====
-- A run of the matcher's thread over one frame with a request and its response.
use mathlib.Core.List.{Perm}
use dns_collector.Prelude.{
  All, ◌+◌, ◌^◌, ◌≡◌, ◌<◌, refl, some, true, [], ◌∷◌, ◌++◌, List, map, length, arith, bytes_eq,
}
use dns_collector.Packet.{Packet}
use dns_collector.Frame.{Frame, append_packet, unset_or_before, create_final}
use dns_collector.Frame.{create as create_frame}
use dns_collector.Frame.Inv.{create-IsValid, append_packet-IsValid}
use dns_collector.Frame.Packets.{packets_of}
use dns_collector.Input.Frames.{lasts, IsRegular}
use dns_collector.PacketHash.{create as create_hash}
use dns_collector.Matcher.{Matcher, create, main}
use dns_collector.Matcher.Run.{Finished, AllNew, main-Runs}
use dns_collector.Matcher.Messages.{messages}
use dns_collector.Matcher.Conserve.{Paired, main-conserves}
use dns_collector.Tests.Packets.{request, response}

abbrev empty_frame : Frame
empty_frame = create_frame (some 5000) (some 5000)

abbrev one_frame : Frame
one_frame = append_packet (append_packet empty_frame request) response

abbrev two_messages : List Packet
two_messages = packets_of (one_frame ∷ [])

abbrev final_frame : Frame
final_frame = create_final (some 6000)

one_frame-IsRegular : IsRegular 2000 one_frame
unfolding append_packet create_frame unset_or_before
one_frame-IsRegular = record {
  kind = refl;
  valid =
      append_packet-IsValid _ response
        (append_packet-IsValid _ request (create-IsValid (some 5000) (some 5000)));
  span = lasts 5000 6000 refl refl (omega arith) (omega arith);
}

two_messages-AllNew : AllNew two_messages
unfolding packets_of append_packet create_frame
two_messages-AllNew = ((refl, (refl, tt)), (((λ e. omega (arith, e)), tt), (tt, tt)))

two_messages-few : length two_messages < 2 ^ 50
unfolding packets_of append_packet create_frame
two_messages-few = omega arith

final_frame-final : final_frame.type ≡ 1
unfolding create_final create_frame
final_frame-final = refl

pub seed_set : 0x100 < (create_hash 1000 2 1024 0).seed
unfolding create_hash
seed_set = omega arith

main-Runs_example :
    (m : Matcher) × (create 1000 2 (one_frame ∷ final_frame ∷ []) 3000 2000 1000 true ≡ some m)
    × Finished bytes_eq true 3000 2000 two_messages (main bytes_eq (length two_messages + 1) m)
main-Runs_example =
    main-Runs bytes_eq true 3000 2000 1000 2 1000 2000 (one_frame ∷ []) final_frame (omega arith)
      (omega arith) seed_set final_frame-final (one_frame-IsRegular, tt) two_messages-AllNew
      two_messages-few

main-conserves_example :
    (start : Matcher) × (end : Matcher) × (frames : List Frame) × (final : Frame) × (create 1000 2
        (one_frame ∷ final_frame ∷ [])
        3000
        2000
        1000
        true
      ≡ some start)
    × (main bytes_eq (length two_messages + 1) start ≡ some end)
    × (end.output ≡ frames ++ final ∷ [])
    × Perm (messages (packets_of frames)) (map (λ p. p.body) two_messages)
    × All (Paired bytes_eq true) (packets_of frames)
main-conserves_example =
    main-conserves bytes_eq true 3000 2000 1000 2 1000 2000 (one_frame ∷ []) final_frame
      (omega arith) (omega arith) seed_set final_frame-final (one_frame-IsRegular, tt)
      two_messages-AllNew two_messages-few
