-- ===== src/Pipeline.antt =====
-- src/main.c: the three threads of the collector in a row, over one capture file. Each thread's
-- frames are those that the thread before it has handed over, in their order.
use mathlib.Core.List.{Perm}
use dns_collector.Prelude.{
  ℕ, ◌+◌, ◌<◌, ◌^◌, ◌≡◌, refl, sym, ◌∙◌, ap, subst, Bool, false, Option, none, some, List, [], ◌∷◌,
  ◌++◌, map, append-nil, length, All, All-left, All-right, All-imp, arith, ◌>>=◌, >>=-some,
}
use dns_collector.Packet.{Packet, PacketData}
use dns_collector.Frame.{Frame}
use dns_collector.Frame.{create as create_frame}
use dns_collector.Frame.Packets.{packets_of}
use dns_collector.PacketHash.{create as create_hash}
use dns_collector.Input.{Reader, Input, Event, Opening, process, finish}
use dns_collector.Input.{create as create_input}
use dns_collector.Input.Run.{Dumps, Stops, received, finish-Ended}
use dns_collector.Input.Open.{Succeeds, process-Closes, create-Holds}
use dns_collector.Matcher.{Matcher}
use dns_collector.Matcher.{create as create_matcher, main as match_packets}
use dns_collector.Matcher.Advance.{IsShort}
use dns_collector.Matcher.Spec.{Runs}
use dns_collector.Matcher.Run.{AllNew, main-Runs}
use dns_collector.Matcher.Messages.{messages}
use dns_collector.Matcher.Conserve.{AllMessages, Paired, Runs-Fine, Runs-AllMessages}
use dns_collector.Output.{System, Output, Format, init}
use dns_collector.Output.{main as write_frames}
use dns_collector.Output.Spec.{Group, IsReliable, Layout, Writes, packets_in, IsWriting}
use dns_collector.Output.Files.{IsRegular, regular, main-writes}

-- the frames and the one behind them
module _ {V : Type 0} (S : System V) (path_fmt : List ℕ) (r : IsReliable S path_fmt) (F : Format V)
    (L : Layout) (fw : Writes F L) (period_sec : ℕ) where
  -- what the matcher hands over can be written
  frames-IsRegular :
      (limit : ℕ) (frames : List Frame)
      → All (IsShort limit) frames
      → All L.Accepts (packets_of frames)
      → All (IsRegular S path_fmt r F L fw period_sec) frames
  unfolding packets_of
  frames-IsRegular limit [] short ok = tt
  frames-IsRegular limit (f ∷ fs) ((start, end, l), short) ok = (
    regular start (ground (arith, l.kind)) l.starts
        (All-left L.Accepts f.packets (packets_of fs) ok),
    frames-IsRegular limit fs short (All-right L.Accepts f.packets (packets_of fs) ok),
  )

-- One file is read, its packets are matched, and what comes out is written. `fuel` is for the
-- matcher's packets.
unfoldable pub collect :
    {W Raw V : Type 0}
    → Reader W Raw
    → System V
    → Format V
    → (List ℕ → List ℕ → Bool)
    → Opening
    → List (Event Raw)
    → Input W
    → (List Frame → Option Matcher)
    → (fuel : ℕ) → Output V
    → Option (Output V)
collect R S F equal o evs input matcher fuel out = do
  (returned, processed) ← process R o evs input
  ended ← finish R processed
  m ← matcher ended.output
  m' ← match_packets equal fuel m
  write_frames S F m'.output out

module _ {W Raw V : Type 0} (R : Reader W Raw) (S : System V) (path_fmt : List ℕ)
    (rel : IsReliable S path_fmt) (F : Format V) (L : Layout) (fw : Writes F L) (period_sec : ℕ)
    (equal : List ℕ → List ℕ → Bool) (match_qname : Bool) where
  -- What the collector leaves for the packets that it has got: files of groups of packets, whose
  -- messages are those of the packets, each as often as it came, and whose pairs fit.
  abbrev pub Collects : List Packet → Option (Output V) → Type 0
  Collects ps o =
      (out : Output V) × (groups : List Group) × (o ≡ some out)
      × IsWriting S L path_fmt period_sec out groups none
      × Perm (messages (packets_in groups)) (map (λ p. p.body) ps)
      × All (Paired equal match_qname) (packets_in groups)

  -- Let the opening of the file succeed, the file's events come to an end, the dump and the output
  -- not fail, and the durations be positive; let the seed of the hash be above 256, as the code
  -- asserts; let the packets that come have different addresses and
  -- no response and be fewer than 2^50, and let packets be writable whose messages are like those
  -- that come (G). Then the whole run comes to its end. The output's files are all closed, each
  -- with the header and the lines of consecutive packets; the messages of these packets are those
  -- of the packets that came, each as often as it came; and each packet that has a response is a
  -- request to which it fits.
  pub collect-Collects :
      (G : PacketData → Type 0) (w : W) (v : V)
      (duration max_size grace report window matcher_size r r' : ℕ) (dumper : Bool)
      (pipe_cmd : List ℕ) (o : Opening) (evs : List (Event Raw))
      → Dumps R
      → Succeeds o
      → Stops R evs
      → 0 < duration
      → 0 < window
      → 0x100 < (create_hash r r' 1024 0).seed
      → AllNew (received R evs)
      → length (received R evs) < 2 ^ 50
      → All (λ p. G p.body) (received R evs)
      → ((p : Packet) → AllMessages equal match_qname G p → L.Accepts p)
      → Collects (received R evs) (
          collect R S F equal o evs
            (create_input w duration max_size grace report dumper)
            (λ frames. create_matcher r r' frames window duration matcher_size match_qname)
            (length (received R evs) + 1)
            (init v path_fmt pipe_cmd period_sec))
  unfolding collect create_input
  collect-Collects G w v duration max_size grace report window matcher_size r r' dumper pipe_cmd o
        evs dumps opens stops positive waits seeded new few good writable =
      let start = create_input w duration max_size grace report dumper in
      let ps = received R evs in
      let (returned, input, f, processed, h) =
        process-Closes R duration positive dumps o evs start (create_frame none none) [] opens stops
          refl refl (create-Holds w duration max_size grace report dumper) in
      let (ended, frames, last, finished, handed, ok, same, kind, zero, nothing) =
        finish-Ended R duration false input f ps h in
      let (m, made, (m', frames', last', now, matched, output, short, kind', zero', runs)) =
        main-Runs equal match_qname window duration r r' matcher_size duration frames last waits
          positive seeded kind ok (subst AllNew (sym same) new)
          (subst (λ x. length x < 2 ^ 50) (sym same) few) in
      let ran : match_packets equal (length ps + 1) m ≡ some m' =
        subst (λ x. match_packets equal (length x + 1) m ≡ some m') same matched in
      let qs = packets_of frames' in
      let run : Runs equal match_qname window ps qs [] now =
        subst (λ x. Runs equal match_qname window x qs [] now) same runs in
      let fine = Runs-Fine equal match_qname window ps qs [] now run new in
      let all_good = Runs-AllMessages equal match_qname G window ps qs [] now run new.0 good in
      let accepted : All L.Accepts qs =
        All-imp writable qs
          (subst (All (AllMessages equal match_qname G)) (append-nil qs) all_good) in
      let (out, groups, wrote, writing, in_groups) =
        main-writes S path_fmt rel F L fw period_sec v pipe_cmd frames' last'
          (frames-IsRegular S path_fmt rel F L fw period_sec duration frames' short accepted)
          (record { last = kind'; nothing = zero' }) in
      let all_out : qs ++ [] ≡ packets_in groups = append-nil qs ∙ sym in_groups in
      (
        out,
        groups,
        >>=-some processed _
            ∙ >>=-some finished _
            ∙ ap
                (λ x. create_matcher r r' x window duration matcher_size match_qname >>= λ m.
                  match_packets equal (length ps + 1) m >>= λ m'.
                  write_frames S F m'.output (init v path_fmt pipe_cmd period_sec))
                handed
            ∙ >>=-some made _
            ∙ >>=-some ran _
            ∙ ap (λ x. write_frames S F x (init v path_fmt pipe_cmd period_sec)) output
            ∙ wrote,
        writing,
        subst (λ x. Perm (messages x) (map (λ p. p.body) ps)) all_out fine.same,
        subst (All (Paired equal match_qname)) all_out fine.paired,
      )
