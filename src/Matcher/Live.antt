-- ===== src/Matcher/Live.antt =====
-- The matcher between two calls of `dns_worker_packet_matcher_next_packet`, and how the end of its
-- thread finds it.
use mathlib.Core.List.{append_cancel_right}
use dns_collector.Prelude.{
  ℕ, ◌≤◌, ◌<◌, ◌^◌, ◌≡◌, ◌≢◌, refl, sym, ◌∙◌, ap, subst, Bool, true, Option, none, some, List, [],
  ◌∷◌, ◌++◌, append_assoc, length, length-append, All, All-imp, arith, is_some, if◌then◌else◌, inl,
  inr, ◌⊎◌, max,
}
use dns_collector.Packet.{Packet}
use dns_collector.Frame.{Frame}
use dns_collector.Frame.{create as create_frame}
use dns_collector.Frame.Packets.{packets_of}
use dns_collector.Matcher.{Matcher, advance_time_to, load_frame, handle_packet}
use dns_collector.Matcher.Waiting.{Holds}
use dns_collector.Matcher.Advance.{IsRunning, all_packets}
use dns_collector.Matcher.Loop.{Comes, advance_time_to-Advances, All-queue}
use dns_collector.Matcher.Handle.{Handled, answer, handle_packet-Handled}
use dns_collector.Matcher.Spec.{
  Takes, request, alone, pairs, Runs, idle, waits, takes, All-Takes, All-waits,
}

-- `m'` differs from `m` at most in what the clock changes
pub record Moved (m m' : Matcher) : Type 0 where
  pub same_input : m'.input ≡ m.input
  pub same_inframe : m'.inframe ≡ m.inframe

-- the matcher's configuration and the packets that have come
module _ (equal : List ℕ → List ℕ → Bool) (match_qname : Bool) (window limit : ℕ) where
  pub record Configured (m : Matcher) : Type 0 where
    pub qname : m.match_qname ≡ match_qname
    pub duration : m.matching_duration ≡ window
    pub longest : m.frame_max_duration ≡ limit
    pub progress : 0 < limit

  -- nothing has come yet
  pub record Fresh (m : Matcher) : Type 0 where
    pub config : Configured m
    pub not_loaded : m.inframe ≡ none
    pub no_frame : m.outframe ≡ none
    pub no_time : m.current_time ≡ none
    pub no_output : m.output ≡ []
    pub no_packets : m.packet_queue ≡ []
    pub table : Holds m.hash_table []
    pub no_buckets : m.hash_table.buckets ≡ 0

  -- The packets `ins` have come.
  pub record Live (m : Matcher) (ins : List Packet) : Type 0 where
    pub config : Configured m
    pub frame : Frame
    pub start : ℕ
    pub end : ℕ
    pub now : ℕ
    pub running : IsRunning m frame start end now
    pub runs :
        Runs equal match_qname window ins (packets_of m.output ++ frame.packets) m.packet_queue now
    pub heard : All (λ p. p.ts ≤ now) m.packet_queue
    pub few : m.hash_table.buckets ≤ length ins

  abbrev pub Ready : Matcher → List Packet → Type 0
  Ready m ins = (Fresh m × (ins ≡ [])) ⊎ Live m ins

  -- the input is not looked at
  pub Live-input :
      (m : Matcher) (ins : List Packet) (input : List Frame) (inframe : Option Frame)
      → Live m ins
      → Live (record m { input = input; inframe = inframe }) ins
  Live-input m ins input inframe l = record {
    config = record {
      qname = l.config.qname;
      duration = l.config.duration;
      longest = l.config.longest;
      progress = l.config.progress;
    };
    frame = l.frame;
    start = l.start;
    end = l.end;
    now = l.now;
    running = record {
      frame = l.running.frame;
      clock = l.running.clock;
      lasts = l.running.lasts;
      progress = l.running.progress;
      table = l.running.table;
      all_short = l.running.all_short;
    };
    runs = l.runs;
    heard = l.heard;
    few = l.few;
  }

  pub Fresh-input :
      (m : Matcher) (input : List Frame) → Fresh m → Fresh (record m { input = input })
  Fresh-input m input r = record {
    config = record {
      qname = r.config.qname;
      duration = r.config.duration;
      longest = r.config.longest;
      progress = r.config.progress;
    };
    not_loaded = r.not_loaded;
    no_frame = r.no_frame;
    no_time = r.no_time;
    no_output = r.no_output;
    no_packets = r.no_packets;
    table = r.table;
    no_buckets = r.no_buckets;
  }

  -- the first frame sets the clock
  pub load_frame-Live :
      (m : Matcher) (ins : List Packet) (f : Frame) (start : ℕ)
      → Ready m ins
      → Live (load_frame m f start) ins
  unfolding load_frame packets_of create_frame
  load_frame-Live m ins f start (inl (r, none_yet)) =
      rw (r.no_frame, none_yet)
        (record {
          config = record {
            qname = r.config.qname;
            duration = r.config.duration;
            longest = r.config.longest;
            progress = r.config.progress;
          };
          frame = create_frame (some start) (some start);
          start = start;
          end = start;
          now = start;
          running = record {
            frame = refl;
            clock = refl;
            lasts = record {
              kind = refl;
              starts = refl;
              ends = refl;
              forward = omega arith;
              short = omega arith;
            };
            progress = omega (arith, r.config.progress, r.config.longest);
            table = rw r.no_packets r.table;
            all_short = rw r.no_output tt;
          };
          runs = rw (r.no_output, r.no_packets) (idle start);
          heard = rw r.no_packets tt;
          few = omega (arith, r.no_buckets);
        })
  load_frame-Live m ins f start (inr l) =
      let known : is_some m.outframe ≡ true = ap is_some l.running.frame in
      subst
        (λ b.
          Live
            (if b then record m { inframe = some f } else record m {
              inframe = some f;
              outframe = some (create_frame (some start) (some start));
              current_time = some start;
            })
            ins)
        (sym known) (Live-input m ins m.input (some f) l)

  -- the times in the queue are not later than the clock
  later_heard :
      (now time : ℕ) (ps : List Packet)
      → now ≤ time
      → All (λ p. p.ts ≤ now) ps
      → All (λ p. p.ts ≤ time) ps
  later_heard now time ps h all = All-imp (λ p e. omega (arith, h, e)) ps all

  -- What the clock does to a live matcher. It stays live, and comes to the time; all that has left
  -- the queue is in the output and the frame.
  pub Comes-Live :
      (m : Matcher) (ins : List Packet) (l : Live m ins) (time : ℕ) (m' : Matcher)
      → Comes m l.frame l.now time m'
      → (l' : Live m' ins) × (l'.now ≡ max l.now time)
  unfolding all_packets
  Comes-Live m ins l time m' c =
      let k = c.later in
      let front = packets_of m.output ++ l.frame.packets in
      let front' = packets_of m'.output ++ k.new_frame.packets in
      let whole : front' ++ m'.packet_queue ≡ (front ++ k.gone) ++ m'.packet_queue =
        append_assoc (packets_of m'.output) k.new_frame.packets m'.packet_queue
        ∙ k.same_packets
        ∙ sym (append_assoc (packets_of m.output) l.frame.packets m.packet_queue)
        ∙ ap (λ x. front ++ x) k.queue
        ∙ sym (append_assoc front k.gone m'.packet_queue) in
      let same : front' ≡ front ++ k.gone =
        append_cancel_right front' (front ++ k.gone) m'.packet_queue whole in
      let qname : m'.match_qname ≡ m.match_qname = ap (λ (x : Matcher). x.match_qname) k.rest in
      let before : Runs equal match_qname window ins front (k.gone ++ m'.packet_queue) l.now =
        subst (λ x. Runs equal match_qname window ins front x l.now) k.queue l.runs in
      let later : l.now ≤ k.new_now = omega (arith, c.clock) in
      let window_is : m.matching_duration ≡ window = l.config.duration in
      (
        record {
          config = record {
            qname = qname ∙ l.config.qname;
            duration = k.same_window ∙ l.config.duration;
            longest = k.same_limit ∙ l.config.longest;
            progress = l.config.progress;
          };
          frame = k.new_frame;
          start = k.new_start;
          end = k.new_end;
          now = k.new_now;
          running = k.running;
          runs =
              subst (λ x. Runs equal match_qname window ins x m'.packet_queue k.new_now) (sym same)
                (waits ins front k.gone m'.packet_queue l.now k.new_now before later
                  (All-imp (λ p h. omega (arith, h, window_is, c.clock)) k.gone c.due));
          heard =
              later_heard l.now k.new_now m'.packet_queue later
                (All-queue _ m l.frame m' k l.heard);
          few = omega (arith, l.few, k.no_more);
        },
        c.clock,
      )

  -- the clock goes on
  pub advance_time_to-Live :
      (m : Matcher) (ins : List Packet) (time : ℕ)
      → Live m ins
      → (m' : Matcher) × (advance_time_to m time ≡ some m')
        × Moved m m'
        × ((l' : Live m' ins) × (time ≤ l'.now))
  advance_time_to-Live m ins time l =
      let (m', ran, c) = advance_time_to-Advances m l.frame l.start l.end l.now time l.running in
      let (l', clock) = Comes-Live m ins l time m' c in
      (
        m',
        ran,
        record {
          same_input = ap (λ (x : Matcher). x.input) c.later.rest;
          same_inframe = ap (λ (x : Matcher). x.inframe) c.later.rest;
        },
        (l', omega (arith, clock)),
      )

  -- what has become of the queue is what the specification says
  Handled-Takes :
      (m : Matcher) (pkt : Packet) (m' : Matcher)
      → m.match_qname ≡ match_qname
      → Handled equal m pkt m'
      → Takes equal match_qname pkt m.packet_queue m'.packet_queue
  unfolding answer
  Handled-Takes m pkt m' qname h = elim h.queue [
    | inl (req, same) ↦ rw same (request m.packet_queue req)
    | inr (none, resp, k, same) ↦ rw same (alone m.packet_queue resp (rw qname at k))
    | inr (some req, resp, k, same) ↦ rw same (pairs m.packet_queue req resp (rw qname at k))
  ]

  -- A packet that has been heard is handled.
  pub handle_packet-Live :
      (m : Matcher) (ins : List Packet) (pkt : Packet) (l : Live m ins)
      → pkt.ts ≤ l.now
      → pkt.response ≡ none
      → All (λ q. q.address ≢ pkt.address) ins
      → length ins < 2 ^ 50
      → (m' : Matcher) × (handle_packet equal m pkt ≡ some m')
        × Moved m m'
        × Live m' (ins ++ pkt ∷ [])
  handle_packet-Live m ins pkt l soon bare apart few =
      let new : All (λ q. q.address ≢ pkt.address) m.packet_queue =
        All-waits equal match_qname _ (λ p b h. h) window ins _ _ _ l.runs apart in
      let (m', ran, h) =
        handle_packet-Handled equal m pkt l.running.table (omega (arith, few, l.few)) bare new in
      let t = Handled-Takes m pkt m' l.config.qname h in
      let output : m'.output ≡ m.output = ap (λ (x : Matcher). x.output) h.rest in
      let limit_is : m'.frame_max_duration ≡ m.frame_max_duration =
        ap (λ (x : Matcher). x.frame_max_duration) h.rest in
      (
        m',
        ran,
        record {
          same_input = ap (λ (x : Matcher). x.input) h.rest;
          same_inframe = ap (λ (x : Matcher). x.inframe) h.rest;
        },
        record {
          config = record {
            qname = ap (λ (x : Matcher). x.match_qname) h.rest ∙ l.config.qname;
            duration = ap (λ (x : Matcher). x.matching_duration) h.rest ∙ l.config.duration;
            longest = limit_is ∙ l.config.longest;
            progress = l.config.progress;
          };
          frame = l.frame;
          start = l.start;
          end = l.end;
          now = l.now;
          running = record {
            frame = ap (λ (x : Matcher). x.outframe) h.rest ∙ l.running.frame;
            clock = ap (λ (x : Matcher). x.current_time) h.rest ∙ l.running.clock;
            lasts = rw limit_is l.running.lasts;
            progress = omega (arith, limit_is, l.running.progress);
            table = h.table;
            all_short = rw (limit_is, output) l.running.all_short;
          };
          runs =
              subst
                (λ x.
                  Runs equal match_qname window (ins ++ pkt ∷ []) (packets_of x ++ l.frame.packets)
                    m'.packet_queue l.now)
                (sym output) (takes ins _ m.packet_queue m'.packet_queue l.now pkt l.runs soon t);
          heard =
              All-Takes equal match_qname (λ p. p.ts ≤ l.now) (λ p b e. e) pkt m.packet_queue
                m'.packet_queue t l.heard soon;
          few = omega (arith, l.few, h.at_most, length-append ins (pkt ∷ []));
        },
      )
