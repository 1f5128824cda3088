-- ===== src/Csv/Fits.antt =====
-- What `write_packet` writes where the line fits in the buffer, and where it does not.
use dns_collector.Prelude.{
  ℕ, ◌+◌, ◌-◌, ◌≤◌, ◌<◌, ◌≡◌, refl, sym, ap, ◌∙◌, true, false, Option, none, some, List, [], ◌∷◌,
  ◌++◌, append_assoc, append-nil, ◌==◌, ltb, Bool-cases, inl, inr, length, length-append,
  length-take, take, take-length, All, arith, ◌>>=◌, >>=-eq-some, >>=-some, >>=_congr, >>=_assoc,
}
use dns_collector.Escape.{newline}
use dns_collector.Escape.Bounds.{escape_all, snescape-all}
use dns_collector.Csv.{
  Library, Piece, separator_piece, uninitialised, text_piece, escape_piece, Line, outbuf_size,
  print, put_separator, print_escaped, separator_int, step, run, finish_line,
}

-- Every byte that the write needs has been set.
abbrev pub IsDefined : Piece → Type 0
IsDefined uninitialised = ⊥
IsDefined separator_piece = Unit
IsDefined (text_piece s) = Unit
IsDefined (escape_piece bytes) = Unit

module _ (lib : Library) (separator : ℕ) where
  -- the text that a write means to give
  unfoldable pub text_of : Piece → List ℕ
  text_of separator_piece = separator ∷ []
  text_of (text_piece s) = s
  text_of (escape_piece bytes) = escape_all lib.isgraph (separator_int separator) bytes
  text_of uninitialised = []

  -- all texts, one behind the other, with no limit
  unfoldable pub full_text : List Piece → List ℕ
  unfolding text_of
  full_text [] = []
  full_text (x ∷ xs) = text_of x ++ full_text xs

  pub full_text-append : (xs ys : List Piece) → full_text (xs ++ ys) ≡ full_text xs ++ full_text ys
  unfolding full_text
  full_text-append [] ys = refl
  full_text-append (x ∷ xs) ys =
      ap (λ t. text_of x ++ t) (full_text-append xs ys) ∙ sym (append_assoc (text_of x) _ _)

  abbrev line_of : List ℕ → Line
  line_of text = record { text = text; pos = length text }

  print-fits :
      (text s : List ℕ)
      → length text + length s < outbuf_size
      → print (line_of text) s ≡ some (line_of (text ++ s))
  unfolding print
  print-fits text s h =
      let behind : ltb outbuf_size (length text) ≡ false = ground arith in
      let inside : ltb (length text + length s) outbuf_size ≡ true = ground arith in
      rw (behind, inside)
        (ap (λ n. some (record { text = text ++ s; pos = n })) (sym (length-append text s)))

  step-fits :
      (text : List ℕ) (x : Piece)
      → IsDefined x
      → length text + length (text_of x) < outbuf_size
      → step lib separator (line_of text) x ≡ some (line_of (text ++ text_of x))
  unfolding step put_separator print_escaped text_of
  step-fits text separator_piece d h =
      let inside : ltb (length text) outbuf_size ≡ true = ground arith in
      rw inside (
        ap (λ n. some (record { text = text ++ separator ∷ []; pos = n }))
          (sym (length-append text (separator ∷ []))))
  step-fits text uninitialised d h = absurd d
  step-fits text (text_piece s) d h = print-fits text s h
  step-fits text (escape_piece bytes) d h =
      let behind : ltb outbuf_size (length text) ≡ false = ground arith in
      let whole =
        snescape-all lib.isgraph (separator_int separator) (outbuf_size - length text) bytes
          (omega (arith, h)) in
      rw (behind, whole)
        (ap (λ n. some (record { text = text ++ text_of (escape_piece bytes); pos = n }))
          (sym (length-append text _)))

  run-fits :
      (xs : List Piece) (text : List ℕ)
      → All IsDefined xs
      → length text + length (full_text xs) < outbuf_size
      → run lib separator xs (line_of text) ≡ some (line_of (text ++ full_text xs))
  unfolding run full_text
  run-fits [] text d h = ap (λ t. some (line_of t)) (sym (append-nil text))
  run-fits (x ∷ xs) text (d, ds) h =
      let sizes = length-append (text_of x) (full_text xs) in
      >>=-some (step-fits text x d (omega (arith, h, sizes))) (λ l. run lib separator xs l)
      ∙ run-fits xs (text ++ text_of x) ds (omega (arith, h, sizes, length-append text (text_of x)))
      ∙ ap (λ t. some (line_of t)) (append_assoc text (text_of x) (full_text xs))

  -- the line of a sequence of writes
  abbrev pub line_from : List Piece → Option (List ℕ)
  line_from xs = run lib separator xs (line_of []) >>= λ l. some (finish_line l)

  -- If what the writes print, escape and separate has at most 2046 bytes, the line is all of it,
  -- and a newline.
  pub line-full_text :
      (xs : List Piece)
      → All IsDefined xs
      → length (full_text xs) ≤ outbuf_size - 2
      → line_from xs ≡ some (full_text xs ++ newline ∷ [])
  unfolding finish_line
  line-full_text xs d h =
      >>=-some (run-fits xs [] d (omega (arith, h))) (λ l. some (finish_line l))
      ∙ ap (λ t. some (t ++ newline ∷ [])) (take-length (outbuf_size - 2) (full_text xs) h)

  -- Any line that is written has at most 2047 bytes, the last of them the newline.
  pub line_bound :
      (xs : List Piece) (line : List ℕ)
      → line_from xs ≡ some line
      → (text : List ℕ) × (line ≡ text ++ newline ∷ []) × (length line < outbuf_size)
  unfolding finish_line
  line_bound xs line h =
      let (l, ran, same) =
        >>=-eq-some (run lib separator xs (line_of [])) (λ l. some (finish_line l)) h in
      let is : take (outbuf_size - 2) l.text ++ newline ∷ [] ≡ line = cc (same) in
      (
        take (outbuf_size - 2) l.text,
        sym is,
        omega (
          arith,
          ap length is,
          length-append (take (outbuf_size - 2) l.text) (newline ∷ []),
          length-take (outbuf_size - 2) l.text,
        ),
      )

  run-append :
      (xs ys : List Piece) (l : Line)
      → run lib separator (xs ++ ys) l ≡ (run lib separator xs l >>= λ l'. run lib separator ys l')
  unfolding run
  run-append [] ys l = refl
  run-append (x ∷ xs) ys l =
      >>=_congr (step lib separator l x) (λ l'. run lib separator (xs ++ ys) l')
        (λ l'. run lib separator xs l' >>= λ l''. run lib separator ys l'')
        (λ l'. run-append xs ys l')
      ∙ sym (
          >>=_assoc (step lib separator l x) (λ l'. run lib separator xs l')
            (λ l'. run lib separator ys l'))

  -- behind the buffer nothing can be written
  nothing_behind :
      (l : Line) (y : Piece) (ys : List Piece)
      → outbuf_size < l.pos
      → run lib separator (y ∷ ys) l ≡ none
  unfolding run step print put_separator print_escaped
  nothing_behind l separator_piece ys h =
      let outside : ltb l.pos outbuf_size ≡ false = ground (arith, h) in rw outside refl
  nothing_behind l uninitialised ys h = refl
  nothing_behind l (text_piece s) ys h =
      let behind : ltb outbuf_size l.pos ≡ true = ground (arith, h) in rw behind refl
  nothing_behind l (escape_piece bytes) ys h =
      let behind : ltb outbuf_size l.pos ≡ true = ground (arith, h) in rw behind refl

  text_overflows :
      (l : Line) (s : List ℕ) (y : Piece) (ys : List Piece)
      → outbuf_size < l.pos + length s
      → run lib separator (text_piece s ∷ y ∷ ys) l ≡ none
  unfolding run step print
  text_overflows l s y ys h =
      let outside : ltb (l.pos + length s) outbuf_size ≡ false = ground (arith, h) in
      elim (Bool-cases (ltb outbuf_size l.pos)) [
        | inl e ↦ rw e refl
        | inr e ↦ elim (Bool-cases (l.pos == outbuf_size)) [
          | inl end ↦ rw (e, outside, end) (nothing_behind _ y ys h)
          | inr inside ↦ rw (e, outside, inside) (nothing_behind _ y ys h)
        ]
      ]

  -- After a text that ends behind the buffer, the next write is out of bounds: nothing checks for the
  -- overflow before the end of the line.
  pub line_overflows :
      (xs ys : List Piece) (s : List ℕ) (y : Piece)
      → All IsDefined xs
      → length (full_text xs) < outbuf_size
      → outbuf_size < length (full_text xs) + length s
      → line_from (xs ++ text_piece s ∷ y ∷ ys) ≡ none
  line_overflows xs ys s y d h over =
      let last = text_piece s ∷ y ∷ ys in
      let ends : run lib separator (xs ++ last) (line_of []) ≡ none =
        run-append xs last (line_of [])
        ∙ >>=-some (run-fits xs [] d (omega (arith, h))) (λ l. run lib separator last l)
        ∙ text_overflows (line_of (full_text xs)) s y ys over in
      ap (λ o. o >>= λ l. some (finish_line l)) ends
