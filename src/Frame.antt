-- ===== src/Frame.antt =====
-- src/packet_frame.c: a group of packets that travels between the threads.
-- A time is a number of microseconds since the Epoch, and `none` where the code has DNS_NO_TIME.
pub mod Inv
pub mod Packets
use dns_collector.Prelude.{
  ℕ, Bool, true, Option, none, some, List, [], ◌∷◌, ◌++◌, ltb, if◌then◌else◌, add64,
}
use dns_collector.Packet.{Packet}

abbrev pub Time : Type 0
Time = Option ℕ

-- `struct dns_packet_frame`
pub record Frame : Type 0 where
  pub time_start : Time
  pub time_end : Time
  pub type : ℕ
  pub packets : List Packet
  pub count : ℕ
  pub size : ℕ

-- `dns_packet_frame_create`
unfoldable pub create : Time → Time → Frame
create time_start time_end = record {
  time_start = time_start;
  time_end = time_end;
  type = 0;
  packets = [];
  count = 0;
  size = 0;
}

-- `dns_packet_frame_create_final`
unfoldable pub create_final : Time → Frame
unfolding create
create_final time = let frame = create time time in record frame { type = 1 }

-- `time == DNS_NO_TIME || time < t`
unfoldable pub unset_or_before : Time → ℕ → Bool
unset_or_before none t = true
unset_or_before (some time) t = ltb time t

-- `dns_packet_frame_append_packet`
unfoldable pub append_packet : Frame → Packet → Frame
unfolding unset_or_before
append_packet frame pkt = record frame {
  packets = frame.packets ++ pkt ∷ [];
  time_end = if unset_or_before frame.time_end pkt.ts then some pkt.ts else frame.time_end;
  count = add64 frame.count 1;
  size = add64 frame.size pkt.memory_size;
}
