-- ===== src/Frame/Packets.antt =====
-- The packets of a sequence of frames, the list `packets` of each `struct dns_packet_frame`.
use dns_collector.Prelude.{◌≡◌, refl, sym, ◌∙◌, ap, List, [], ◌∷◌, ◌++◌, append_assoc}
use dns_collector.Packet.{Packet}
use dns_collector.Frame.{Frame}

-- the packets of frames, in order
unfoldable pub packets_of : List Frame → List Packet
packets_of [] = []
packets_of (f ∷ fs) = f.packets ++ packets_of fs

pub packets_of-append :
    (fs gs : List Frame) → packets_of (fs ++ gs) ≡ packets_of fs ++ packets_of gs
unfolding packets_of
packets_of-append [] gs = refl
packets_of-append (f ∷ fs) gs =
    ap (λ x. f.packets ++ x) (packets_of-append fs gs)
    ∙ sym (append_assoc f.packets (packets_of fs) (packets_of gs))
