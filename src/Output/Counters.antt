-- ===== src/Output/Counters.antt =====
-- The counters of `struct dns_output`, words of 64 bits, over the files that have been written.
use dns_collector.Prelude.{
  ℕ, ◌%◌, ◌^◌, ◌≡◌, ap, Bool, List, [], ◌∷◌, ◌++◌, append-nil, inl, inr, Bool-cases, length,
  length-append, arith, add64,
}
use dns_collector.Packet.{Packet}
use dns_collector.Output.Spec.{
  Group, Layout, counted, count_if, count_if-append, lines, packets_in, bytes_in, bytes_in-append,
  packets_in-append, packets_in-snoc, lines-snoc,
}

pub total_if :
    (f : Packet → Bool) (done : List Group) (g : Group) (n m : ℕ)
    → n ≡ count_if f (packets_in done) % 2 ^ 64
    → m ≡ count_if f (packets_in (g ∷ [])) % 2 ^ 64
    → add64 n m ≡ count_if f (packets_in (done ++ g ∷ [])) % 2 ^ 64
total_if f done g n m a b = omega (
  arith,
  a,
  b,
  ap (count_if f) (packets_in-append done (g ∷ [])),
  count_if-append f (packets_in done) (packets_in (g ∷ [])),
)

pub one_more_if :
    (f : Packet → Bool) (g : Group) (p : Packet) (n : ℕ)
    → n ≡ count_if f (packets_in (g ∷ [])) % 2 ^ 64
    → counted (f p) n
      ≡ count_if f (packets_in (record g { packets = g.packets ++ p ∷ [] } ∷ [])) % 2 ^ 64
unfolding counted count_if
one_more_if f g p n e =
    let more = ap (count_if f) (packets_in-snoc [] g p) in
    let split = count_if-append f (packets_in (g ∷ [])) (p ∷ []) in
    elim (Bool-cases (f p)) [
      | inl is ↦ let one = rw is at split in rw is (omega (arith, e, more, one))
      | inr not_so ↦
          let none_more = rw not_so at split in rw not_so (omega (arith, e, more, none_more))
    ]

-- The counters of 64 bits: `n` and `m` are what they hold before a step.
module _ (L : Layout) where
  pub empty_now : (n : ℕ) → n ≡ bytes_in L [] % 2 ^ 64 → n ≡ 0
  unfolding bytes_in
  empty_now n e = e

  pub header_bytes :
      (time n : ℕ)
      → n ≡ bytes_in L [] % 2 ^ 64
      → add64 n (length (L.header time))
        ≡ bytes_in L (record { opened = time; packets = [] } ∷ []) % 2 ^ 64
  unfolding bytes_in lines
  header_bytes time n e = omega (arith, empty_now n e, ap length (append-nil (L.header time)))

  pub total_items :
      (done : List Group) (g : Group) (n m : ℕ)
      → n ≡ length (packets_in done) % 2 ^ 64
      → m ≡ length (packets_in (g ∷ [])) % 2 ^ 64
      → add64 n m ≡ length (packets_in (done ++ g ∷ [])) % 2 ^ 64
  total_items done g n m a b = omega (
    arith,
    a,
    b,
    ap length (packets_in-append done (g ∷ [])),
    length-append (packets_in done) (packets_in (g ∷ [])),
  )

  pub total_bytes :
      (done : List Group) (g : Group) (n m : ℕ)
      → n ≡ bytes_in L done % 2 ^ 64
      → m ≡ bytes_in L (g ∷ []) % 2 ^ 64
      → add64 n m ≡ bytes_in L (done ++ g ∷ []) % 2 ^ 64
  total_bytes done g n m a b = omega (arith, a, b, bytes_in-append L done (g ∷ []))

  pub one_more :
      (g : Group) (p : Packet) (n : ℕ)
      → n ≡ length (packets_in (g ∷ [])) % 2 ^ 64
      → add64 n 1 ≡ length (packets_in (record g { packets = g.packets ++ p ∷ [] } ∷ [])) % 2 ^ 64
  one_more g p n e =
      omega
        (arith, e, ap length (packets_in-snoc [] g p), length-append (packets_in (g ∷ [])) (p ∷ []))

  pub line_bytes :
      (g : Group) (p : Packet) (n : ℕ)
      → n ≡ bytes_in L (g ∷ []) % 2 ^ 64
      → add64 n (length (L.line p))
        ≡ bytes_in L (record g { packets = g.packets ++ p ∷ [] } ∷ []) % 2 ^ 64
  unfolding bytes_in
  line_bytes g p n e = omega (
    arith,
    e,
    length-append (L.header g.opened) (lines L g.packets),
    length-append (L.header g.opened) (lines L (g.packets ++ p ∷ [])),
    ap length (lines-snoc L g.packets p),
    length-append (lines L g.packets) (L.line p),
  )
