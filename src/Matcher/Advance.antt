-- ===== src/Matcher/Advance.antt =====
-- `dns_worker_packet_matcher_advance_time_to` comes to its end, loses no packet and keeps their
-- order, and lets no frame last longer than the maximum.
use dns_collector.Prelude.{
  ℕ, ◌+◌, ◌-◌, ◌≤◌, ◌<◌, ◌≡◌, refl, ap, true, some, List, [], ◌∷◌, ◌++◌, append_assoc, append-nil,
  ltb, leb, All, All-append, add64, arith, Bool-cases, inl, inr,
}
use dns_collector.Packet.{Packet}
use dns_collector.Frame.{Frame}
use dns_collector.Frame.{create as create_frame}
use dns_collector.Frame.Packets.{packets_of, packets_of-append}
use dns_collector.Matcher.{Matcher, output_frame, not_after, end_frame, make_space}
use dns_collector.Matcher.Waiting.{Holds}

-- a frame goes to the output
hand_over :
    (fs : List Frame) (f : Frame) (rest : List Packet)
    → packets_of (fs ++ f ∷ []) ++ rest ≡ packets_of fs ++ (f.packets ++ rest)
unfolding packets_of
hand_over fs f rest =
    rw (packets_of-append fs (f ∷ []), append-nil f.packets)
      (append_assoc (packets_of fs) f.packets rest)

-- all packets that the matcher has handed over or still has, in the order in which they leave
unfoldable pub all_packets : Matcher → Frame → List Packet
all_packets m f = packets_of m.output ++ (f.packets ++ m.packet_queue)

-- the frame has both times, `limit` apart at most
pub record Lasts (limit : ℕ) (f : Frame) (start end : ℕ) : Type 0 where
  pub kind : f.type ≡ 0
  pub starts : f.time_start ≡ some start
  pub ends : f.time_end ≡ some end
  pub forward : start ≤ end
  pub short : end ≤ start + limit

abbrev pub IsShort : ℕ → Frame → Type 0
IsShort limit f = (start : ℕ) × (end : ℕ) × Lasts limit f start end

-- The matcher runs, with the frame `f` from `start` to `end` for its output.
pub record IsRunning (m : Matcher) (f : Frame) (start end now : ℕ) : Type 0 where
  pub frame : m.outframe ≡ some f
  pub clock : m.current_time ≡ some now
  pub lasts : Lasts m.frame_max_duration f start end
  pub progress : 0 < m.frame_max_duration
  pub table : Holds m.hash_table m.packet_queue
  pub all_short : All (IsShort m.frame_max_duration) m.output

-- `m'` is what `m` has come to: it has the same packets, of which `gone` have left the queue, has
-- kept its configuration and what is to come, and has no more buckets.
pub record Later (m : Matcher) (f : Frame) (m' : Matcher) : Type 0 where
  pub new_frame : Frame
  pub new_start : ℕ
  pub new_end : ℕ
  pub new_now : ℕ
  pub running : IsRunning m' new_frame new_start new_end new_now
  pub same_packets : all_packets m' new_frame ≡ all_packets m f
  pub same_limit : m'.frame_max_duration ≡ m.frame_max_duration
  pub same_window : m'.matching_duration ≡ m.matching_duration
  pub rest : m' ≡ record m {
    output = m'.output;
    hash_table = m'.hash_table;
    packet_queue = m'.packet_queue;
    outframe = m'.outframe;
    current_time = m'.current_time;
  }
  pub no_more : m'.hash_table.buckets ≤ m.hash_table.buckets
  pub gone : List Packet
  pub queue : m.packet_queue ≡ gone ++ m'.packet_queue

module _ (m : Matcher) (f : Frame) (start end now : ℕ) (r : IsRunning m f start end now) where
  unfoldable pub Later-self : Later m f m
  Later-self = record {
    new_frame = f;
    new_start = start;
    new_end = end;
    new_now = now;
    running = r;
    same_packets = refl;
    same_limit = refl;
    same_window = refl;
    rest = refl;
    no_more = omega arith;
    gone = [];
    queue = refl;
  }

  -- the frame is handed over with a later end
  output-IsShort :
      (end' : ℕ) (g : Frame)
      → Lasts m.frame_max_duration g start end'
      → All (IsShort m.frame_max_duration) (m.output ++ g ∷ [])
  output-IsShort end' g l = All-append _ m.output (g ∷ []) r.all_short ((start, end', l), tt)

  pub end_frame-Later :
      let ev = start + m.frame_max_duration + m.matching_duration in
      (m' : Matcher) × (end_frame m f ev ≡ some m')
      × ((l : Later m f m') × (l.new_start ≡ start + m.frame_max_duration)
          × (m'.packet_queue ≡ m.packet_queue)
          × (l.gone ≡ [])
          × (l.new_now ≡ ev))
  unfolding end_frame not_after output_frame all_packets create_frame packets_of
  end_frame-Later =
      let ev = start + m.frame_max_duration + m.matching_duration in
      let until : ev - m.matching_duration ≡ start + m.frame_max_duration = omega arith in
      let g : Frame = record f { time_end = some (ev - m.matching_duration) } in
      let l : Lasts m.frame_max_duration g start (start + m.frame_max_duration) = record {
        kind = r.lasts.kind;
        starts = r.lasts.starts;
        ends = ap some until;
        forward = omega arith;
        short = omega arith;
      } in
      let in_time : leb end (ev - m.matching_duration) ≡ true = ground (arith, r.lasts.short) in
      let next_frame : Frame = create_frame g.time_end g.time_end in
      let m' : Matcher = record m {
        output = m.output ++ g ∷ [];
        outframe = some next_frame;
        current_time = some ev;
      } in
      (
        m',
        rw (r.lasts.ends, in_time) refl,
        (
          record {
            new_frame = next_frame;
            new_start = start + m.frame_max_duration;
            new_end = start + m.frame_max_duration;
            new_now = ev;
            running = record {
              frame = refl;
              clock = refl;
              lasts = record {
                kind = refl;
                starts = ap some until;
                ends = ap some until;
                forward = omega arith;
                short = omega arith;
              };
              progress = r.progress;
              table = r.table;
              all_short = output-IsShort (start + m.frame_max_duration) g l;
            };
            same_packets = hand_over m.output g m.packet_queue;
            same_limit = refl;
            same_window = refl;
            rest = refl;
            no_more = omega arith;
            gone = [];
            queue = refl;
          },
          refl,
          refl,
          refl,
          refl,
        ),
      )

  -- room for one more packet in a frame, which may be a new one
  pub make_space-Later :
      (pkt : Packet)
      → (m' : Matcher) × (make_space m f pkt ≡ some m')
        × ((l : Later m f m') × (start ≤ l.new_start)
            × (m'.packet_queue ≡ m.packet_queue)
            × (m'.hash_table ≡ m.hash_table))
  unfolding make_space output_frame all_packets create_frame packets_of Later-self
  make_space-Later pkt = elim (Bool-cases (ltb m.frame_max_size (add64 f.size pkt.memory_size))) [
    | inl e ↦ (
      (record m {
        output = m.output ++ f ∷ [];
        outframe = some (create_frame f.time_end f.time_end);
      }),
      rw (e, r.frame) refl,
      (
        record {
          new_frame = create_frame f.time_end f.time_end;
          new_start = end;
          new_end = end;
          new_now = now;
          running = record {
            frame = refl;
            clock = r.clock;
            lasts = record {
              kind = refl;
              starts = r.lasts.ends;
              ends = r.lasts.ends;
              forward = omega arith;
              short = omega arith;
            };
            progress = r.progress;
            table = r.table;
            all_short = output-IsShort end f r.lasts;
          };
          same_packets = hand_over m.output f m.packet_queue;
          same_limit = refl;
          same_window = refl;
          rest = refl;
          no_more = omega arith;
          gone = [];
          queue = refl;
        },
        r.lasts.forward,
        refl,
        refl,
      ),
    )
    | inr e ↦ (m, rw e refl, (Later-self, omega arith, refl, refl))
  ]
