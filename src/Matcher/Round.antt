-- ===== src/Matcher/Round.antt =====
-- One round of the loop of `dns_worker_packet_matcher_advance_time_to`.
use dns_collector.Prelude.{
  ℕ, ◌+◌, ◌-◌, ◌≤◌, ◌<◌, ◌≡◌, refl, sym, ◌∙◌, ap, true, some, List, [], ◌∷◌, ◌++◌, append_assoc,
  ◌==◌, ltb, length, arith, Bool-cases, inl, inr, ◌⊎◌, >>=-some, All,
}
use dns_collector.Packet.{Packet}
use dns_collector.Frame.{Frame, append_packet, unset_or_before}
use dns_collector.Frame.Packets.{packets_of}
use dns_collector.Matcher.{Matcher, exit_packet, end_frame, next_event, advance_from, advance_step}
use dns_collector.Matcher.Waiting.{exit_table-Holds}
use dns_collector.Matcher.Advance.{
  all_packets, Lasts, IsRunning, Later, end_frame-Later, make_space-Later,
}

-- a frame that a packet is appended to still is short
append_packet-Lasts :
    (limit : ℕ) (f : Frame) (start end : ℕ) (p : Packet)
    → Lasts limit f start end
    → p.ts ≤ start + limit
    → (end' : ℕ) × Lasts limit (append_packet f p) start end'
unfolding append_packet unset_or_before
append_packet-Lasts limit f start end p l h = elim (Bool-cases (ltb end p.ts)) [
  | inl e ↦ (
    p.ts,
    record {
      kind = l.kind;
      starts = l.starts;
      ends = rw (l.ends, e) refl;
      forward = ground (arith, l.forward, e);
      short = h;
    },
  )
  | inr e ↦ (
    end,
    record {
      kind = l.kind;
      starts = l.starts;
      ends = rw (l.ends, e) refl;
      forward = l.forward;
      short = l.short;
    },
  )
]

exit_packet-Later :
    (m : Matcher) (f : Frame) (start end now ev : ℕ) (pkt : Packet) (pkts : List Packet)
    → IsRunning m f start end now
    → m.packet_queue ≡ pkt ∷ pkts
    → pkt.ts ≤ start + m.frame_max_duration
    → (m' : Matcher) × (exit_packet m f ev (pkt ∷ pkts) ≡ some m')
      × ((l : Later m f m') × (start ≤ l.new_start)
          × (m'.packet_queue ≡ pkts)
          × (l.gone ≡ pkt ∷ [])
          × (l.new_now ≡ ev))
unfolding exit_packet all_packets append_packet
exit_packet-Later m f start end now ev pkt pkts r head soon =
    let (m1, ran, (l, later, same_queue, same_table)) = make_space-Later m f start end now r pkt in
    let (table, left, holds, no_more) =
      exit_table-Holds m.hash_table pkt pkts (rw head at r.table) in
    let (end', lasts) =
      append_packet-Lasts m1.frame_max_duration l.new_frame l.new_start l.new_end pkt
        l.running.lasts (omega (arith, l.same_limit)) in
    let m' : Matcher = record m1 {
      packet_queue = pkts;
      hash_table = table;
      outframe = some (append_packet l.new_frame pkt);
      current_time = some ev;
    } in
    (
      m',
      rw (ran, left, l.running.frame) refl,
      (
        record {
          new_frame = append_packet l.new_frame pkt;
          new_start = l.new_start;
          new_end = end';
          new_now = ev;
          running = record {
            frame = refl;
            clock = refl;
            lasts = lasts;
            progress = l.running.progress;
            table = holds;
            all_short = l.running.all_short;
          };
          same_packets =
              ap (λ x. packets_of m1.output ++ x) (append_assoc l.new_frame.packets (pkt ∷ []) pkts)
              ∙ ap (λ x. packets_of m1.output ++ (l.new_frame.packets ++ x))
                  (sym (same_queue ∙ head))
              ∙ l.same_packets;
          same_limit = l.same_limit;
          same_window = l.same_window;
          rest =
              ap
                (λ (x : Matcher). record x {
                  packet_queue = pkts;
                  hash_table = table;
                  outframe = some (append_packet l.new_frame pkt);
                  current_time = some ev;
                })
                l.rest;
          no_more = omega (arith, no_more);
          gone = pkt ∷ [];
          queue = head;
        },
        later,
        refl,
        refl,
        refl,
      ),
    )

-- the packets have waited for the whole window
abbrev pub AllDue : Matcher → ℕ → List Packet → Type 0
AllDue m time ps = All (λ p. p.ts + m.matching_duration ≤ time) ps

-- the packets have waited for more than the window
abbrev pub AllOverdue : Matcher → ℕ → List Packet → Type 0
AllOverdue m time ps = All (λ p. p.ts + m.matching_duration < time) ps

-- what is left to do: the packets in the queue, and the time from the frame's start on
abbrev pub left : Matcher → ℕ → ℕ → ℕ
left m start time = length m.packet_queue + (time - start)

-- A round takes the clock no further than to `time`; it comes there or has less to do; and if all
-- packets are overdue, then none is left when it comes there.
pub record Goes (m : Matcher) (f : Frame) (start time : ℕ) (m' : Matcher) : Type 0 where
  pub later : Later m f m'
  pub until : later.new_now ≤ time
  pub less : (later.new_now ≡ time) ⊎ (left m' later.new_start time < left m start time)
  pub due : AllDue m time later.gone
  pub drains : AllOverdue m time m.packet_queue → (m'.packet_queue ≡ []) ⊎ (later.new_now < time)

abbrev pub Steps : Matcher → Frame → ℕ → ℕ → Type 0
Steps m f start time = (m' : Matcher) × (advance_step m time ≡ some m') × Goes m f start time m'

module _ (m : Matcher) (f : Frame) (start end now time : ℕ) (r : IsRunning m f start end now) where
  abbrev stopped : Matcher
  stopped = record m { current_time = some time }

  stop_here : (AllOverdue m time m.packet_queue → m.packet_queue ≡ []) → Goes m f start time stopped
  unfolding all_packets
  stop_here empty = record {
    later = record {
      new_frame = f;
      new_start = start;
      new_end = end;
      new_now = time;
      running = record {
        frame = r.frame;
        clock = refl;
        lasts = r.lasts;
        progress = r.progress;
        table = r.table;
        all_short = r.all_short;
      };
      same_packets = refl;
      same_limit = refl;
      same_window = refl;
      rest = refl;
      no_more = omega arith;
      gone = [];
      queue = refl;
    };
    until = omega arith;
    less = inl refl;
    due = tt;
    drains = λ over. inl (empty over);
  }

  advance_step-from :
      (queue : List Packet)
      → m.packet_queue ≡ queue
      → advance_step m time ≡ advance_from m f start queue time
  unfolding advance_step
  advance_step-from queue e =
      >>=-some r.frame _ ∙ >>=-some r.lasts.starts _ ∙ ap (λ x. advance_from m f start x time) e

  step_end :
      start + m.frame_max_duration + m.matching_duration ≤ time
      → (AllOverdue m time m.packet_queue
          → (m.packet_queue ≡ []) ⊎ (start + m.frame_max_duration + m.matching_duration < time))
      → (m' : Matcher) × (end_frame m f (start + m.frame_max_duration + m.matching_duration)
          ≡ some m')
        × Goes m f start time m'
  step_end due drains =
      let (m', ran, (l, on, kept, none_gone, now_is)) = end_frame-Later m f start end now r in
      let same = ap length kept in
      (
        m',
        ran,
        record {
          later = l;
          until = omega (arith, now_is, due);
          less = inr (omega (arith, on, same, r.progress));
          due = rw none_gone tt;
          drains = λ over. elim (drains over) [
            | inl e ↦ inl (kept ∙ e)
            | inr e ↦ inr (omega (arith, now_is, e))
          ];
        },
      )

  step_exit :
      (pkt : Packet) (pkts : List Packet)
      → m.packet_queue ≡ pkt ∷ pkts
      → pkt.ts ≤ start + m.frame_max_duration
      → pkt.ts + m.matching_duration ≤ time
      → (m' : Matcher) × (exit_packet m f (pkt.ts + m.matching_duration) (pkt ∷ pkts) ≡ some m')
        × Goes m f start time m'
  step_exit pkt pkts e soon due =
      let (m', ran, (l, on, kept, out, now_is)) =
        exit_packet-Later m f start end now (pkt.ts + m.matching_duration) pkt pkts r e soon in
      let same = ap length kept in
      let before = ap length e in
      (
        m',
        ran,
        record {
          later = l;
          until = omega (arith, now_is, due);
          less = inr (omega (arith, on, same, before));
          due = rw out (due, tt);
          drains = λ over. let first = (rw e at over).0 in inr (omega (arith, now_is, first));
        },
      )

  step_from : (queue : List Packet) → m.packet_queue ≡ queue → Steps m f start time
  unfolding advance_from next_event
  step_from [] e =
      let fe = start + m.frame_max_duration + m.matching_duration in
      elim (Bool-cases (ltb time fe)) [
        | inl after ↦ (stopped, advance_step-from [] e ∙ rw after refl, stop_here (λ over. e))
        | inr due ↦
            let (m', ran, goes) = step_end (ground (arith, due)) (λ over. inl e) in
            let same : (fe == fe) ≡ true = ground arith in
            (m', advance_step-from [] e ∙ rw (due, same) ran, goes)
      ]
  step_from (pkt ∷ pkts) e =
      let fe = start + m.frame_max_duration + m.matching_duration in
      let pe = pkt.ts + m.matching_duration in
      let same : (fe == fe) ≡ true = ground arith in
      let head : AllOverdue m time m.packet_queue → pe < time = λ over. (rw e at over).0 in
      elim (Bool-cases (ltb fe pe)) [
        | inl first ↦ elim (Bool-cases (ltb time fe)) [
          | inl after ↦ (
            stopped,
            advance_step-from (pkt ∷ pkts) e ∙ rw (first, after) refl,
            stop_here (λ over. ground (arith, head over, first, after)),
          )
          | inr due ↦
              let (m', ended, goes) =
                step_end (ground (arith, due)) (λ over. inr (ground (arith, head over, first))) in
              (m', advance_step-from (pkt ∷ pkts) e ∙ rw (first, due, same) ended, goes)
        ]
        | inr first ↦ elim (Bool-cases (ltb time pe)) [
          | inl after ↦ (
            stopped,
            advance_step-from (pkt ∷ pkts) e ∙ rw (first, after) refl,
            stop_here (λ over. ground (arith, head over, after)),
          )
          | inr due ↦ elim (Bool-cases (pe == fe)) [
            | inl both ↦
                let at_once : pe ≡ fe = ground (arith, both) in
                let (m', ended, goes) =
                  step_end (ground (arith, due, at_once))
                    (λ over. inr (omega (arith, head over, at_once))) in
                (
                  m',
                  advance_step-from (pkt ∷ pkts) e
                      ∙ rw (first, due, both) (ap (end_frame m f) at_once ∙ ended),
                  goes,
                )
            | inr apart ↦
                let (m', left_now, goes) =
                  step_exit pkt pkts e (ground (arith, first)) (ground (arith, due)) in
                (m', advance_step-from (pkt ∷ pkts) e ∙ rw (first, due, apart) left_now, goes)
          ]
        ]
      ]

  pub step : Steps m f start time
  step = step_from m.packet_queue refl
