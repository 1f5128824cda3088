-- ===== src/Matcher/Stream.antt =====
-- `dns_worker_packet_matcher_next_packet` gives the packets of the frames that come, one by one.
use dns_collector.Prelude.{
  ℕ, ◌≤◌, ◌≡◌, refl, sym, ◌∙◌, ap, subst, Bool, not, ◌&&◌, Option, none, some, List, [], ◌∷◌, ◌++◌,
  ◌==◌, if◌then◌else◌, length, All, arith, is_some, Bool-cases, inl, inr, ◌>>=◌, >>=-some,
}
use dns_collector.Packet.{Packet}
use dns_collector.Frame.{Time, Frame}
use dns_collector.Frame.Packets.{packets_of}
use dns_collector.Input.Frames.{unset, lasts, IsRegular}
use dns_collector.Matcher.{Matcher, load_frame, take_packet, from_input, next_packet}
use dns_collector.Matcher.Live.{
  Live, Ready, Live-input, Fresh-input, load_frame-Live, advance_time_to-Live,
}

-- The packets `left` are to come: those left of the frame that is loaded, if one is, and those of the
-- regular frames of the input, in front of the final frame.
pub data Coming (longest : ℕ) (last : Frame) (m : Matcher) : List Packet → Type 0 where
  unloaded :
      (fs : List Frame)
      → m.inframe ≡ none
      → m.input ≡ fs ++ last ∷ []
      → All (IsRegular longest) fs
      → Coming longest last m (packets_of fs)
  loaded :
      (f : Frame) (time : ℕ) (fs : List Frame)
      → m.inframe ≡ some f
      → f.time_end ≡ some time
      → m.input ≡ fs ++ last ∷ []
      → All (IsRegular longest) fs
      → Coming longest last m (f.packets ++ packets_of fs)

load_frame-input : (m : Matcher) (f : Frame) (s : ℕ) → (load_frame m f s).input ≡ m.input
unfolding load_frame
load_frame-input m f s = elim (Bool-cases (is_some m.outframe)) [
  | inl e ↦ rw e refl
  | inr e ↦ rw e refl
]

-- the branch for a frame that is neither final nor to be skipped
regular_branch :
    {A : Type 0} (type count : ℕ) (o : Time) (start : ℕ) (x y : Option A) (k : ℕ → Option A)
    → type ≡ 0
    → o ≡ some start
    → (if type == 1 then x else if count == 0 && not (is_some o) then y else (o >>= k)) ≡ k start
regular_branch type count o start x y k kind set = rw (kind, set) (ground arith)

module _ (equal : List ℕ → List ℕ → Bool) (match_qname : Bool) (window limit longest : ℕ)
    (last : Frame) (final : last.type ≡ 1) (ins : List Packet) where
  abbrev IsReady : Matcher → Type 0
  IsReady m = Ready equal match_qname window limit m ins

  -- The first packet to come has been given, and the clock is not before its time stamp; or there is
  -- none to come.
  pub data Gives : List Packet → Option (Option Packet × Matcher) → Type 0 where
    gives :
        (pkt : Packet) (left : List Packet) (m : Matcher)
        → (l : Live equal match_qname window limit m ins) → pkt.ts ≤ l.now
        → Coming longest last m left
        → Gives (pkt ∷ left) (some (some pkt, m))
    ends : (m : Matcher) → IsReady m → Gives [] (some (none, m))

  take_packet-Gives :
      (rest : Matcher → Option (Option Packet × Matcher)) (fs : List Frame) (m : Matcher)
      (f : Frame) (time : ℕ) (ps : List Packet)
      → ((m' : Matcher) → IsReady m' → Gives (packets_of fs) (rest m'))
      → Live equal match_qname window limit m ins
      → m.input ≡ fs ++ last ∷ []
      → All (IsRegular longest) fs
      → f.time_end ≡ some time
      → Gives (ps ++ packets_of fs) (take_packet rest m f ps)
  unfolding take_packet
  take_packet-Gives rest fs m f time [] go l input ok ended =
      let (m', ran, moved, (l', there)) =
        advance_time_to-Live equal match_qname window limit m ins time l in
      let done : Gives (packets_of fs) (rest (record m' { inframe = none })) =
        go _ (inr (Live-input equal match_qname window limit m' ins m'.input none l')) in
      subst (Gives (packets_of fs)) (sym (>>=-some ended _ ∙ >>=-some ran _)) done
  take_packet-Gives rest fs m f time (pkt ∷ ps) go l input ok ended =
      let loaded_with : Frame = record f { packets = ps } in
      let m1 : Matcher = record m { inframe = some loaded_with } in
      let (m', ran, moved, (l', there)) =
        advance_time_to-Live equal match_qname window limit m1 ins pkt.ts
          (Live-input equal match_qname window limit m ins m.input (some loaded_with) l) in
      let still : Coming longest last m' (ps ++ packets_of fs) =
        loaded loaded_with time fs moved.same_inframe ended (moved.same_input ∙ input) ok in
      subst (Gives (pkt ∷ (ps ++ packets_of fs))) (sym (>>=-some ran _))
        (gives pkt (ps ++ packets_of fs) m' l' there still)

  from_input-Gives :
      (fs : List Frame) (m : Matcher)
      → All (IsRegular longest) fs
      → IsReady m
      → Gives (packets_of fs) (from_input (fs ++ last ∷ []) m)
  unfolding from_input packets_of
  from_input-Gives [] m ok ready = rw final (
      ends (record m { input = [] })
        (elim ready [
          | inl (r, e) ↦ inl (Fresh-input equal match_qname window limit m [] r, e)
          | inr l ↦ inr (Live-input equal match_qname window limit m ins [] m.inframe l)
        ]))
  from_input-Gives (f ∷ fs) m (regular, ok) ready =
      let m1 : Matcher = record m { input = fs ++ last ∷ [] } in
      let ready1 : IsReady m1 = elim ready [
        | inl (r, e) ↦ inl (Fresh-input equal match_qname window limit m (fs ++ last ∷ []) r, e)
        | inr l ↦
            inr (Live-input equal match_qname window limit m ins (fs ++ last ∷ []) m.inframe l)
      ] in
      elim regular.span [
        | unset s e p ↦
            let nothing : f.count ≡ 0 = omega (arith, regular.valid.counted, ap length p) in
            rw (regular.kind, nothing, s, p) (from_input-Gives fs m1 ok ready1)
        | lasts s e starts ended h h' ↦
            let l = load_frame-Live equal match_qname window limit m1 ins f s ready1 in
            let (m2, ran, moved, (l2, there)) =
              advance_time_to-Live equal match_qname window limit (load_frame m1 f s) ins s l in
            let input2 : m2.input ≡ fs ++ last ∷ [] = moved.same_input ∙ load_frame-input m1 f s in
            let taken =
              take_packet-Gives (from_input (fs ++ last ∷ [])) fs m2 f e f.packets
                (λ m'. from_input-Gives fs m' ok) l2 input2 ok ended in
            subst (Gives (f.packets ++ packets_of fs))
              (sym (
                regular_branch f.type f.count f.time_start s _ _ _ regular.kind starts
                ∙ >>=-some ran _))
              taken
      ]

  from_loaded :
      (m : Matcher) (f : Frame) (input : List Frame)
      → m.inframe ≡ some f
      → m.input ≡ input
      → next_packet m ≡ take_packet (from_input input) m f f.packets
  unfolding next_packet
  from_loaded m f input frame e =
      ap
        (λ (o : Option Frame). elim o as (λ o. Option (Option Packet × Matcher)) [
          | none ↦ from_input m.input m
          | some f ↦ take_packet (from_input m.input) m f f.packets
        ])
        frame
      ∙ ap (λ x. take_packet (from_input x) m f f.packets) e

  from_unloaded :
      (m : Matcher) (input : List Frame)
      → m.inframe ≡ none
      → m.input ≡ input
      → next_packet m ≡ from_input input m
  unfolding next_packet
  from_unloaded m input no_frame e =
      ap
        (λ (o : Option Frame). elim o as (λ o. Option (Option Packet × Matcher)) [
          | none ↦ from_input m.input m
          | some f ↦ take_packet (from_input m.input) m f f.packets
        ])
        no_frame
      ∙ ap (λ x. from_input x m) e

  pub next_packet-Gives :
      (m : Matcher) (left : List Packet)
      → IsReady m
      → Coming longest last m left
      → Gives left (next_packet m)
  next_packet-Gives m _ ready (unloaded fs no_frame input ok) =
      subst (Gives (packets_of fs)) (sym (from_unloaded m (fs ++ last ∷ []) no_frame input))
        (from_input-Gives fs m ok ready)
  next_packet-Gives m _ (inl (r, e)) (loaded f time fs frame ended input ok) =
      let away = r.not_loaded in cc
  next_packet-Gives m _ (inr l) (loaded f time fs frame ended input ok) =
      subst (Gives (f.packets ++ packets_of fs))
        (sym (from_loaded m f (fs ++ last ∷ []) frame input))
        (take_packet-Gives (from_input (fs ++ last ∷ [])) fs m f time f.packets
          (λ m' ready. from_input-Gives fs m' ok ready) l input ok ended)
