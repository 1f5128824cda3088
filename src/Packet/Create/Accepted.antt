-- ===== src/Packet/Create/Accepted.antt =====
-- When `dns_packet_create_from_libtrace` makes a packet, and what the packet is.
use native.Mathlib.Decide.{dec_lt}
use mathlib.Core.Option.{some_inj}
use dns_collector.Prelude.{
  ℕ, ◌+◌, ◌-◌, ◌*◌, ◌≤◌, ◌<◌, ◌^◌, ◌≡◌, refl, sym, ◌∙◌, ap, subst, false, not, ◌||◌, Option, none,
  some, List, [], ◌∷◌, ◌==◌, ltb, leb, length, arith, inl, inr, Bool-cases, >>=-some, >>=-eq-some,
}
use dns_collector.Packet.{Packet}
use dns_collector.Packet.Create.{
  sub32, Payload, TcpHeader, proto_udp, proto_icmp, proto_icmp6, Capture, Knot, created, copy_data,
  read16, make_packet, from_transport, Skipped, stopped, data_at, skip_length, skip_tcp,
  use_payload, skip_header, create_from_libtrace, proto_tcp,
}
use dns_collector.Packet.Create.Copied.{copy_data-Shows, read16-StartsWith}
use dns_collector.Packet.Create.Spec.{
  IsSegment, Carries, over_tcp, over_udp, in_icmp, in_icmp6, Describes, IsSmall,
}
use dns_collector.Packet.Create.Checks.{Checked, make_packet-created}

pub data_at_inj : (p q : Payload) → data_at p ≡ data_at q → p ≡ q
data_at_inj p q e = cc

copied_enough :
    (bytes wire : List ℕ) (n : ℕ)
    → copy_data (record { pointer = some bytes; remaining = n }) ≡ some wire
    → n ≤ length bytes
unfolding copy_data
copied_enough bytes wire n h = elim (Bool-cases (leb n (length bytes))) [
  | inl e ↦ ground (arith, e)
  | inr e ↦ let away = rw e at h in cc
]

pub sub32-cut : (r : ℕ) → r < 2 → 2 ^ 32 ≤ sub32 r 2 + 2
unfolding sub32
sub32-cut r h = omega (arith, h)

pub sub32-enough : (r : ℕ) → 2 ≤ r → r < 2 ^ 32 → sub32 r 2 ≡ r - 2
unfolding sub32
sub32-enough r h small = omega (arith, h, small)

module _ (c : Capture) (small : IsSmall c) (captured : ℕ) (wire : List ℕ) where
  skip_length-IsSegment :
      (header : TcpHeader) (q : Payload) (d : Payload)
      → c.tcp ≡ some header
      → header.syn ≡ false
      → header.fin ≡ false
      → 2 ≤ captured
      → c.payload_from_tcp captured ≡ q
      → (o : Option (List ℕ)) → q.pointer ≡ o
      → skip_length c (record { pointer = o; remaining = q.remaining }) ≡ some (data_at d)
      → copy_data d ≡ some wire
      → IsSegment c captured wire
  unfolding skip_length read16
  skip_length-IsSegment header q d has syn fin enough payload none e h copied = cc
  skip_length-IsSegment header q d has syn fin enough payload (some []) e h copied = cc
  skip_length-IsSegment header q d has syn fin enough payload (some (b ∷ [])) e h copied = cc
  skip_length-IsSegment header q d has syn fin enough payload (some (hi ∷ lo ∷ bytes)) e h copied =
      elim (Bool-cases (hi * 256 + lo + 2 == c.payload_length)) [
        | inl same ↦
            let rest : Payload = record { pointer = some bytes; remaining = sub32 q.remaining 2 } in
            let at_data : some (data_at rest) ≡ some (data_at d) = rw same at h in
            let copied' : copy_data rest ≡ some wire =
              ap copy_data (data_at_inj rest d (some_inj.0 at_data)) ∙ copied in
            let fits = copied_enough bytes wire (sub32 q.remaining 2) copied' in
            let room : length bytes + 4 < 2 ^ 32 = omega (
              arith,
              small.memory captured (hi ∷ lo ∷ bytes) (ap (λ (x : Payload). x.pointer) payload ∙ e),
            ) in
            let below : q.remaining < 2 ^ 32 =
              omega (arith, small.size captured, ap (λ (x : Payload). x.remaining) payload) in
            let not_cut : 2 ≤ q.remaining = elim (dec_lt q.remaining 2) [
              | yes cut ↦ absurd (omega (arith, sub32-cut q.remaining cut, fits, room))
              | no h ↦ omega (arith, h)
            ] in
            record {
              hi = hi;
              lo = lo;
              bytes = bytes;
              remaining = q.remaining;
              header = header;
              has_header = has;
              no_syn = syn;
              no_fin = fin;
              enough = enough;
              payload =
                  payload
                  ∙ (let at_pointer : Option (List ℕ) → Payload =
                        λ o. record { pointer = o; remaining = q.remaining } in
                      ap at_pointer e);
              announced = ground (arith, same);
              not_cut = not_cut;
              copied = copy_data-Shows _ wire (
                  subst
                    (λ n. copy_data (record { pointer = some bytes; remaining = n }) ≡ some wire)
                    (sub32-enough q.remaining not_cut below) copied');
            }
        | inr other ↦ let away = rw other at h in cc
      ]

  skip_tcp-IsSegment :
      (d : Payload) (o : Option TcpHeader)
      → c.tcp ≡ o
      → skip_tcp c captured ≡ some (data_at d)
      → copy_data d ≡ some wire
      → IsSegment c captured wire
  unfolding skip_tcp
  skip_tcp-IsSegment d none e h copied = let away = rw e at h in cc
  skip_tcp-IsSegment d (some header) e h copied =
      let ran = sym (>>=-some e _) ∙ h in
      elim (Bool-cases (header.syn || header.fin)) [
        | inl stop ↦ let away = rw stop at ran in cc
        | inr on ↦ elim (Bool-cases (ltb captured 2)) [
          | inl short ↦ let away = rw (on, short) at ran in cc
          | inr long ↦
              skip_length-IsSegment header (c.payload_from_tcp captured) d e (ground (arith, on))
                (ground (arith, on)) (ground (arith, long)) refl
                (c.payload_from_tcp captured).pointer refl (rw (on, long) at ran) copied
        ]
      ]

  skip_header-Carries :
      (proto : ℕ) (d : Payload)
      → c.transport ≡ some (proto, captured)
      → skip_header c proto captured ≡ some (data_at d)
      → copy_data d ≡ some wire
      → Carries c proto wire
  unfolding skip_header
  skip_header-Carries proto d t h copied = elim (Bool-cases (proto == proto_tcp)) [
    | inl tcp ↦
        let is : proto ≡ proto_tcp = ground (arith, tcp) in
        subst (λ x. Carries c x wire) (sym is)
          (over_tcp captured wire (t ∙ ap (λ x. some (x, captured)) is)
            (skip_tcp-IsSegment d c.tcp refl (rw tcp at h) copied))
    | inr a ↦ elim (Bool-cases (proto == proto_udp)) [
      | inl udp ↦
          let is : proto ≡ proto_udp = ground (arith, udp) in
          let same = data_at_inj _ d (some_inj.0 (rw (a, udp) at h)) in
          subst (λ x. Carries c x wire) (sym is)
            (over_udp captured wire (t ∙ ap (λ x. some (x, captured)) is)
              (copy_data-Shows _ wire (ap copy_data same ∙ copied)))
      | inr b ↦ elim (Bool-cases (proto == proto_icmp)) [
        | inl icmp ↦
            let is : proto ≡ proto_icmp = ground (arith, icmp) in
            let same = data_at_inj _ d (some_inj.0 (rw (a, b, icmp) at h)) in
            subst (λ x. Carries c x wire) (sym is)
              (in_icmp captured wire (t ∙ ap (λ x. some (x, captured)) is)
                (copy_data-Shows _ wire (ap copy_data same ∙ copied)))
        | inr e ↦ elim (Bool-cases (proto == proto_icmp6)) [
          | inl icmp6 ↦
              let is : proto ≡ proto_icmp6 = ground (arith, icmp6) in
              let same = data_at_inj _ d (some_inj.0 (rw (a, b, e, icmp6) at h)) in
              subst (λ x. Carries c x wire) (sym is)
                (in_icmp6 captured wire (t ∙ ap (λ x. some (x, captured)) is)
                  (copy_data-Shows _ wire (ap copy_data same ∙ copied)))
          | inr f ↦ let away = rw (a, b, e, f) at h in cc
        ]
      ]
    ]
  ]

module _ (k : Knot) (c : Capture) (address : ℕ) (p : Packet) where
  use_payload-created :
      (proto : ℕ) (s : Skipped)
      → use_payload k c address proto s ≡ some (created p)
      → (d : Payload) × (s ≡ data_at d) × (make_packet k c address proto d ≡ some (created p))
  unfolding use_payload
  use_payload-created proto (stopped r) h = cc
  use_payload-created proto (data_at d) h = (d, refl, h)

  from_transport-Describes :
      (t : Option (ℕ × ℕ))
      → IsSmall c
      → c.transport ≡ t
      → from_transport k c address t ≡ some (created p)
      → Describes k c address p
  unfolding from_transport Checked
  from_transport-Describes none small e h = cc
  from_transport-Describes (some (proto, captured)) small e h =
      elim (Bool-cases (ltb 0 c.fragment_offset || not (c.fragment_more == 0))) [
        | inl part ↦ let away = rw part at h in cc
        | inr whole ↦
            let (s, skipped, used) = >>=-eq-some (skip_header c proto captured) _ (rw whole at h) in
            let (d, at_data, made) = use_payload-created proto s used in
            let (wire, copied, (asked, parsed, id, src, dst, from, to, parses, starts, fields)) =
              make_packet-created k c address proto p d made in
            record {
              proto = proto;
              wire = wire;
              asked = asked;
              parsed = parsed;
              id = id;
              src = src;
              dst = dst;
              whole = (ground (arith, whole), ground (arith, whole));
              carries =
                  skip_header-Carries c small captured wire proto d e (skipped ∙ ap some at_data)
                    copied;
              from = from;
              to = to;
              parses = parses;
              starts = read16-StartsWith wire id starts;
              fields = fields;
            }
      ]

  pub created-Describes :
      IsSmall c → create_from_libtrace k c address ≡ some (created p) → Describes k c address p
  unfolding create_from_libtrace
  created-Describes small h = from_transport-Describes c.transport small refl h
