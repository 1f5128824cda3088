-- ===== src/Frame/Inv.antt =====
-- What a frame's counters and times say of its packets.
use dns_collector.Prelude.{
  ℕ, ◌+◌, ◌%◌, ◌^◌, ◌≤◌, ◌≡◌, none, some, List, [], ◌∷◌, ◌++◌, length, length-append, All,
  All-append, All-imp, arith, if◌then◌else◌,
}
use dns_collector.Packet.{Packet}
use dns_collector.Frame.{Time, Frame, create, unset_or_before, append_packet}

pub memory_sum : List Packet → ℕ
memory_sum [] = 0
memory_sum (p ∷ ps) = p.memory_size + memory_sum ps

pub memory_sum-append :
    (ps qs : List Packet) → memory_sum (ps ++ qs) ≡ memory_sum ps + memory_sum qs
unfolding memory_sum
memory_sum-append [] qs = omega arith
memory_sum-append (p ∷ ps) qs = omega (arith, memory_sum-append ps qs)

-- `t` is not after the time, if that is set
abbrev pub NotAfter : ℕ → Time → Type 0
NotAfter t none = ⊥
NotAfter t (some e) = t ≤ e

pub record IsValid (f : Frame) : Type 0 where
  pub counted : f.count ≡ length f.packets % 2 ^ 64
  pub sized : f.size ≡ memory_sum f.packets % 2 ^ 64
  pub covered : All (λ p. NotAfter p.ts f.time_end) f.packets

-- A new frame is empty and its counters and times agree with that.
pub create-IsValid : (s e : Time) → IsValid (create s e)
unfolding create memory_sum
create-IsValid s e = record { counted = omega arith; sized = omega arith; covered = tt }

covered_later :
    (e : Time) (t u : ℕ) → NotAfter u e → NotAfter u (if unset_or_before e t then some t else e)
unfolding unset_or_before
covered_later none t u h = absurd h
covered_later (some e) t u h = ground arith

covered_self : (e : Time) (t : ℕ) → NotAfter t (if unset_or_before e t then some t else e)
unfolding unset_or_before
covered_self none t = omega arith
covered_self (some e) t = ground arith

-- Appending a packet keeps the frame's count, its size and its end time in step with its packets.
pub append_packet-IsValid : (f : Frame) (p : Packet) → IsValid f → IsValid (append_packet f p)
unfolding append_packet memory_sum
append_packet-IsValid f p v = record {
  counted = omega (arith, v.counted, length-append f.packets (p ∷ []));
  sized = omega (arith, v.sized, memory_sum-append f.packets (p ∷ []));
  covered =
      All-append _ f.packets (p ∷ [])
        (All-imp (λ q h. covered_later f.time_end p.ts q.ts h) f.packets v.covered)
        (covered_self f.time_end p.ts, tt);
}
