-- ===== src/Escape/Bounds.antt =====
-- The buffer is not overrun, and the text is cut only between two escapes.
use dns_collector.Prelude.{
  ℕ, suc, ◌+◌, ◌-◌, ◌≤◌, ◌<◌, ◌≡◌, refl, ap, ◌∙◌, sym, Bool, Option, none, some, List, [], ◌∷◌,
  ◌++◌, append_assoc, append-nil, ltb, leb, length, length-append, take, drop, take-append-drop,
  take-length, arith, Bool-cases, inl, inr, ◌⊎◌,
}
use dns_collector.Escape.{escaped, write_piece, snescape_loop, snescape}

module _ (isgraph : ℕ → Bool) (separator : Option ℕ) where
  -- the text for a byte
  abbrev pub piece_of : Option (List ℕ) → ℕ → List ℕ
  piece_of (some text) d = text
  piece_of none d = d ∷ []

  unfoldable pub piece : ℕ → List ℕ
  piece d = piece_of (escaped isgraph separator d) d

  -- the text for all bytes, with no limit
  unfoldable pub escape_all : List ℕ → List ℕ
  unfolding piece
  escape_all [] = []
  escape_all (d ∷ ds) = piece d ++ escape_all ds

  -- What the code writes for `bytes` behind `out` in a buffer of `limit` characters: the text of the
  -- first `count` bytes, where either that is all of them or the text of one more does not fit.
  pub record Cut (limit : ℕ) (out bytes text : List ℕ) : Type 0 where
    pub count : ℕ
    pub count_le : count ≤ length bytes
    pub text_is : text ≡ out ++ escape_all (take count bytes)
    pub fits : length text ≤ limit
    pub maximal :
        (count ≡ length bytes) ⊎ (limit < length out + length (escape_all (take (suc count) bytes)))

  piece_copied : (d : ℕ) → escaped isgraph separator d ≡ none → piece d ≡ d ∷ []
  unfolding piece
  piece_copied d e = rw e

  piece_text : (d : ℕ) (t : List ℕ) → escaped isgraph separator d ≡ some t → piece d ≡ t
  unfolding piece
  piece_text d t e = rw e

  pub length-piece_pos : (d : ℕ) → 0 < length (piece d)
  unfolding piece escaped
  length-piece_pos d = ground arith

  stop :
      (limit : ℕ) (out : List ℕ) (d : ℕ) (ds : List ℕ)
      → length out ≤ limit
      → limit < length out + length (piece d)
      → Cut limit out (d ∷ ds) out
  unfolding escape_all
  stop limit out d ds h full = record {
    count = 0;
    count_le = omega arith;
    text_is = sym (append-nil out);
    fits = h;
    maximal = inr (rw append-nil full);
  }

  more :
      (limit : ℕ) (out : List ℕ) (d : ℕ) (ds text : List ℕ)
      → Cut limit (out ++ piece d) ds text
      → Cut limit out (d ∷ ds) text
  unfolding escape_all
  more limit out d ds text c = record {
    count = suc c.count;
    count_le = omega (arith, c.count_le);
    text_is = c.text_is ∙ append_assoc out (piece d) _;
    fits = c.fits;
    maximal = elim c.maximal [
      | inl e ↦ inl (ap suc e)
      | inr h ↦ inr (
          omega (
            arith,
            h,
            length-append out (piece d),
            length-append (piece d) (escape_all (take (suc c.count) ds)),
          ))
    ];
  }

  -- one round of the loop that is entered
  round-Cut :
      (limit : ℕ) (rest : List ℕ → List ℕ) (d : ℕ) (ds out : List ℕ)
      → length out < limit
      → ((out' : List ℕ) → length out' ≤ limit → Cut limit out' ds (rest out'))
      → (o : Option (List ℕ)) → escaped isgraph separator d ≡ o
      → Cut limit out (d ∷ ds) (write_piece limit out o rest d)
  unfolding write_piece
  round-Cut limit rest d ds out h ih none e =
      more limit out d ds _
        (rw (piece_copied d e) (ih (out ++ d ∷ []) (omega (arith, length-append out (d ∷ [])))))
  round-Cut limit rest d ds out h ih (some text) e =
      elim (Bool-cases (ltb limit (length out + length text))) [
        | inl over ↦
            rw over
              (stop limit out d ds (omega arith) (rw (piece_text d text e) (ground (arith, over))))
        | inr fits ↦ rw fits (
            more limit out d ds _ (
              rw (piece_text d text e)
                (ih (out ++ text) (rw (length-append out text) (ground (arith, fits))))))
      ]

  snescape_loop-Cut :
      (limit : ℕ) (bytes out : List ℕ)
      → length out ≤ limit
      → Cut limit out bytes (snescape_loop isgraph separator limit bytes out)
  unfolding snescape_loop escape_all
  snescape_loop-Cut limit [] out h = record {
    count = 0;
    count_le = omega arith;
    text_is = sym (append-nil out);
    fits = h;
    maximal = inl refl;
  }
  snescape_loop-Cut limit (d ∷ ds) out h = elim (Bool-cases (ltb (length out) limit)) [
    | inl go ↦ rw go (
        round-Cut limit _ d ds out (ground (arith, go)) (snescape_loop-Cut limit ds)
          (escaped isgraph separator d) refl)
    | inr end ↦ rw end (stop limit out d ds h (ground (arith, end, length-piece_pos d)))
  ]

  -- With a buffer of `strsize` bytes, at least one, the text and the final '\0' fit; the text is the
  -- full text of a prefix of the bytes, never a cut escape; and the prefix is all of the bytes
  -- unless the text of one byte more would not fit.
  pub snescape-Cut :
      (strsize : ℕ) (bytes : List ℕ)
      → 0 < strsize
      → Cut (strsize - 1) [] bytes (snescape isgraph strsize separator bytes)
  unfolding snescape
  snescape-Cut strsize bytes h = elim (Bool-cases (leb strsize 0)) [
    | inl e ↦ absurd (ground (arith, e))
    | inr e ↦ rw e (snescape_loop-Cut (strsize - 1) bytes [] (omega arith))
  ]

  escape_all-append : (xs ys : List ℕ) → escape_all (xs ++ ys) ≡ escape_all xs ++ escape_all ys
  unfolding escape_all
  escape_all-append [] ys = refl
  escape_all-append (x ∷ xs) ys =
      ap (λ t. piece x ++ t) (escape_all-append xs ys) ∙ sym (append_assoc (piece x) _ _)

  length-escape_all-take :
      (n : ℕ) (bytes : List ℕ) → length (escape_all (take n bytes)) ≤ length (escape_all bytes)
  length-escape_all-take n bytes =
      let whole = ap escape_all (take-append-drop n bytes) in
      let parts = escape_all-append (take n bytes) (drop n bytes) in
      omega (
        arith,
        ap length (sym parts ∙ whole),
        length-append (escape_all (take n bytes)) (escape_all (drop n bytes)),
      )

  -- a text that fits is written whole
  pub snescape-all :
      (strsize : ℕ) (bytes : List ℕ)
      → length (escape_all bytes) < strsize
      → snescape isgraph strsize separator bytes ≡ escape_all bytes
  snescape-all strsize bytes h =
      let c = snescape-Cut strsize bytes (omega arith) in
      elim c.maximal [
        | inl e ↦ c.text_is ∙ ap escape_all (take-length c.count bytes (omega (arith, e)))
        | inr over ↦ absurd (omega (arith, over, length-escape_all-take (suc c.count) bytes))
      ]
