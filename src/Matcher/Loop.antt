-- ===== src/Matcher/Loop.antt =====
-- The loop of `dns_worker_packet_matcher_advance_time_to`, from its rounds.
use dns_collector.Prelude.{
  ℕ, zero, suc, ◌+◌, ◌≤◌, ◌<◌, ◌≡◌, refl, sym, ap, subst, ◌∙◌, ◌++◌, List, [], ◌∷◌, append_assoc,
  All, All-append, All-imp, All-right, true, false, Option, some, ltb, length, arith, Bool-cases,
  inl, inr, >>=-some, lt→ltb, le→ltb, max,
}
use native.Mathlib.Decide.{dec_lt}
use dns_collector.Packet.{Packet}
use dns_collector.Frame.{Frame}
use dns_collector.Matcher.{Matcher, advance_step, advance_loop, advance_time_to}
use dns_collector.Matcher.Advance.{IsRunning, Later, Later-self}
use dns_collector.Matcher.Round.{left, AllDue, AllOverdue, Goes, step}

Later-trans :
    (m : Matcher) (f : Frame) (m' : Matcher) (l : Later m f m') (m'' : Matcher)
    → Later m' l.new_frame m''
    → Later m f m''
Later-trans m f m' l m'' k = record {
  new_frame = k.new_frame;
  new_start = k.new_start;
  new_end = k.new_end;
  new_now = k.new_now;
  running = k.running;
  same_packets = k.same_packets ∙ l.same_packets;
  same_limit = k.same_limit ∙ l.same_limit;
  same_window = k.same_window ∙ l.same_window;
  rest =
      k.rest
      ∙ ap
          (λ (x : Matcher). record x {
            output = m''.output;
            hash_table = m''.hash_table;
            packet_queue = m''.packet_queue;
            outframe = m''.outframe;
            current_time = m''.current_time;
          })
          l.rest;
  no_more = omega (arith, k.no_more, l.no_more);
  gone = l.gone ++ k.gone;
  queue =
      l.queue ∙ ap (λ x. l.gone ++ x) k.queue ∙ sym (append_assoc l.gone k.gone m''.packet_queue);
}

-- The clock comes to the time asked for, or stays where it was if that is later; a packet leaves the
-- queue when it has waited for the whole window, not before; and a queue of overdue packets is left
-- empty.
pub record Comes (m : Matcher) (f : Frame) (now time : ℕ) (m' : Matcher) : Type 0 where
  pub later : Later m f m'
  pub clock : later.new_now ≡ max now time
  pub due : AllDue m time later.gone
  pub drains : now < time → AllOverdue m time m.packet_queue → m'.packet_queue ≡ []

abbrev pub Advances : Matcher → Frame → ℕ → ℕ → Option Matcher → Type 0
Advances m f now time o = (m' : Matcher) × (o ≡ some m') × Comes m f now time m'

Comes-self :
    (m : Matcher) (f : Frame) (start end now time : ℕ)
    → IsRunning m f start end now
    → time ≤ now
    → Comes m f now time m
unfolding Later-self
Comes-self m f start end now time r h = record {
  later = Later-self m f start end now r;
  clock = omega (arith, h);
  due = tt;
  drains = λ early over. absurd (omega (arith, h, early));
}

loop-at_time :
    (fuel : ℕ) (m : Matcher) (now time : ℕ)
    → 0 < fuel
    → m.current_time ≡ some now
    → time ≤ now
    → advance_loop fuel time m ≡ some m
unfolding advance_loop
loop-at_time zero m now time pos clock h = absurd (omega arith)
loop-at_time (suc fuel) m now time pos clock h =
    let late : ltb now time ≡ false = le→ltb _ _ h in >>=-some clock _ ∙ rw late refl

loop-on :
    (fuel : ℕ) (m : Matcher) (f : Frame) (start end now time : ℕ) (m' : Matcher)
    → IsRunning m f start end now
    → now < time
    → advance_step m time ≡ some m'
    → advance_loop (suc fuel) time m ≡ advance_loop fuel time m'
unfolding advance_loop
loop-on fuel m f start end now time m' r h ran =
    let early : ltb now time ≡ true = lt→ltb _ _ h in >>=-some r.clock _ ∙ rw early (>>=-some ran _)

-- the packets left are among those that were there
pub All-queue :
    (P : Packet → Type 0) (m : Matcher) (f : Frame) (m' : Matcher) (l : Later m f m')
    → All P m.packet_queue
    → All P m'.packet_queue
All-queue P m f m' l h = All-right P l.gone m'.packet_queue (subst (All P) l.queue h)

nothing_left : (gone ps : List Packet) → gone ++ ps ≡ [] → ps ≡ []
nothing_left [] ps e = e
nothing_left (p ∷ gone) ps e = cc

-- a round and then the rest of the loop
Comes-on :
    (m : Matcher) (f : Frame) (start now time : ℕ) (m' : Matcher) (g : Goes m f start time m')
    (m'' : Matcher)
    → now < time
    → Comes m' g.later.new_frame g.later.new_now time m''
    → Comes m f now time m''
unfolding Later-trans
Comes-on m f start now time m' g m'' early c =
    let l = g.later in
    let window = l.same_window in
    record {
      later = Later-trans m f m' l m'' c.later;
      clock = omega (arith, c.clock, g.until, early);
      due =
          All-append _ l.gone c.later.gone g.due
            (All-imp (λ p h. omega (arith, h, window)) c.later.gone c.due);
      drains = λ before over.
          let over' : AllOverdue m' time m'.packet_queue =
            All-imp (λ p h. omega (arith, h, window)) m'.packet_queue (All-queue _ m f m' l over) in
          elim (g.drains over) [
            | inl e ↦ nothing_left c.later.gone m''.packet_queue (sym c.later.queue ∙ e)
            | inr h ↦ c.drains h over'
          ];
    }

advance_loop-Advances :
    (fuel : ℕ) (m : Matcher) (f : Frame) (start end now time : ℕ)
    → IsRunning m f start end now
    → left m start time + 2 ≤ fuel
    → Advances m f now time (advance_loop fuel time m)
advance_loop-Advances zero m f start end now time r enough = absurd (omega arith)
advance_loop-Advances (suc fuel) m f start end now time r enough = elim (dec_lt now time) [
  | no late ↦ (
    m,
    loop-at_time (suc fuel) m now time (omega arith) r.clock (omega arith),
    Comes-self m f start end now time r (omega arith),
  )
  | yes early ↦
      let (m', ran, g) = step m f start end now time r in
      let l = g.later in
      let on = loop-on fuel m f start end now time m' r early ran in
      let rest : Advances m' l.new_frame l.new_now time (advance_loop fuel time m') = elim g.less [
        | inl there ↦ (
          m',
          loop-at_time fuel m' l.new_now time (omega (arith, enough)) l.running.clock
              (omega (arith, there)),
          Comes-self m' l.new_frame l.new_start l.new_end l.new_now time l.running
              (omega (arith, there)),
        )
        | inr fewer ↦
            advance_loop-Advances fuel m' l.new_frame l.new_start l.new_end l.new_now time l.running
              (omega (arith, fewer, enough))
      ] in
      let (m'', ran', c) = rest in (m'', on ∙ ran', Comes-on m f start now time m' g m'' early c)
]

-- Advancing the time of a matcher that runs, as IsRunning says, comes to its end without a fault. The
-- clock is then at the time asked for, or where it was if that is later; every packet is still in the
-- output, the frame or the queue, in the same order; the packets that have left the queue are the
-- first ones and have waited for the window by the time asked for; a queue in which all have waited
-- for longer is empty, if the clock was before that time; no frame lasts longer than the maximum; the
-- hash table holds exactly the requests of the queue that have no response and has no more buckets;
-- and the configuration and the input are as before.
pub advance_time_to-Advances :
    (m : Matcher) (f : Frame) (start end now time : ℕ)
    → IsRunning m f start end now
    → Advances m f now time (advance_time_to m time)
unfolding advance_time_to
advance_time_to-Advances m f start end now time r =
    let (m', ran, comes) =
      advance_loop-Advances (length m.packet_queue + time + 2) m f start end now time r
        (omega arith) in
    elim (Bool-cases (ltb (time + 1000) now)) [
      | inl back ↦ (
        m,
        >>=-some r.clock _ ∙ rw back refl,
        Comes-self m f start end now time r (ground (arith, back)),
      )
      | inr on ↦ (m', >>=-some r.clock _ ∙ rw on ran, comes)
    ]
