-- ===== src/Csv/Fields.antt =====
-- The number of the fields of a line of the CSV output.
use dns_collector.Prelude.{
  ℕ, suc, ◌-◌, ◌≤◌, ◌≡◌, refl, ap, sym, subst, ◌∙◌, true, false, Option, none, some, List, [], ◌∷◌,
  ◌++◌, ◌==◌, Bool-cases, inl, inr, length, All, All-append, arith,
}
use dns_collector.Packet.{Packet}
use dns_collector.Escape.{backslash, newline}
use dns_collector.Escape.Lines.{NoBreak}
use dns_collector.Csv.{
  Library, Piece, Column, outbuf_size, selected, has_flag, content, more_pieces, pieces,
}
use dns_collector.Csv.Columns.{columns}
use dns_collector.Csv.Fits.{IsDefined, text_of, full_text, full_text-append}
use dns_collector.Csv.Clean.{separators, IsAllowed, IsClean, IsCleanLibrary, IsClean-append}
use dns_collector.Csv.Cells.{
  AreClean, HasCleanCell, HasCleanTitle, columns-HasCleanCell, columns-names,
  are_names-HasCleanTitle,
}
use dns_collector.Csv.Written.{row, write_packet-full_text}
use dns_collector.Csv.Hooks.{write_packet}

module _ (lib : Library) (s : ℕ) (a : IsAllowed s) (clean : IsCleanLibrary lib s) where
  selected-All {κ} :
      (P : Column → Type κ) (fields : ℕ) (cs : List Column) → All P cs → All P (selected fields cs)
  unfolding selected
  selected-All P fields [] h = tt
  selected-All P fields (c ∷ cs) (h, hs) = elim (Bool-cases (has_flag fields c.flag)) [
    | inl e ↦ rw e (h, selected-All P fields cs hs)
    | inr e ↦ rw e (selected-All P fields cs hs)
  ]

  -- the text of a field
  full_text-IsClean :
      (xs : List Piece) → (AreClean lib s a clean) xs → IsClean s (full_text lib s xs)
  unfolding full_text
  full_text-IsClean [] h = ((λ rest. refl), tt)
  full_text-IsClean (x ∷ xs) (h, hs) = IsClean-append s a _ _ h (full_text-IsClean xs hs)

  content-AreClean :
      (pkt : Option Packet) (c : Column)
      → (HasCleanCell lib s a clean) c
      → (HasCleanTitle lib s a clean) c
      → (AreClean lib s a clean) (content pkt c)
  unfolding content text_of
  content-AreClean none c cell title = (title, tt)
  content-AreClean (some p) c cell title = cell p

  content-separators :
      (pkt : Option Packet) (c : Column) (xs : List Piece)
      → (HasCleanCell lib s a clean) c
      → (HasCleanTitle lib s a clean) c
      → separators s false (full_text lib s (content pkt c ++ xs))
        ≡ separators s false (full_text lib s xs)
  content-separators pkt c xs cell title =
      ap (separators s false) (full_text-append lib s (content pkt c) xs)
      ∙ (full_text-IsClean (content pkt c) (content-AreClean pkt c cell title)).0
          (full_text lib s xs)

  content-NoBreak :
      (pkt : Option Packet) (c : Column) (xs : List Piece)
      → (HasCleanCell lib s a clean) c
      → (HasCleanTitle lib s a clean) c
      → All NoBreak (full_text lib s xs)
      → All NoBreak (full_text lib s (content pkt c ++ xs))
  content-NoBreak pkt c xs cell title h =
      subst (All NoBreak) (sym (full_text-append lib s (content pkt c) xs)) (
        All-append _ (full_text lib s (content pkt c)) (full_text lib s xs)
          (full_text-IsClean (content pkt c) (content-AreClean pkt c cell title)).1 h)

  more_pieces-separators :
      (pkt : Option Packet) (cs : List Column)
      → All (HasCleanCell lib s a clean) cs
      → All (HasCleanTitle lib s a clean) cs
      → separators s false (full_text lib s (more_pieces cs pkt)) ≡ length cs
  unfolding more_pieces full_text text_of separators
  more_pieces-separators pkt [] cells titles = refl
  more_pieces-separators pkt (c ∷ cs) (cell, cells) (title, titles) =
      let visible : (s == backslash) ≡ false = ground (arith, a.no_backslash) in
      let here : (s == s) ≡ true = ground arith in
      rw (visible, here)
        (ap suc (
          content-separators pkt c (more_pieces cs pkt) cell title
          ∙ more_pieces-separators pkt cs cells titles))

  pieces-separators :
      (pkt : Option Packet) (cs : List Column)
      → All (HasCleanCell lib s a clean) cs
      → All (HasCleanTitle lib s a clean) cs
      → separators s false (full_text lib s (pieces cs pkt)) ≡ length cs - 1
  unfolding pieces full_text separators
  pieces-separators pkt [] cells titles = omega arith
  pieces-separators pkt (c ∷ cs) (cell, cells) (title, titles) =
      content-separators pkt c (more_pieces cs pkt) cell title
      ∙ more_pieces-separators pkt cs cells titles
      ∙ omega arith

  -- the texts of the fields, with the separators between them, have no newline
  more_pieces-NoBreak :
      (pkt : Option Packet) (cs : List Column)
      → All (HasCleanCell lib s a clean) cs
      → All (HasCleanTitle lib s a clean) cs
      → All NoBreak (full_text lib s (more_pieces cs pkt))
  unfolding more_pieces full_text text_of
  more_pieces-NoBreak pkt [] cells titles = tt
  more_pieces-NoBreak pkt (c ∷ cs) (cell, cells) (title, titles) = (
    (a.no_newline, a.no_nul),
    content-NoBreak pkt c (more_pieces cs pkt) cell title (more_pieces-NoBreak pkt cs cells titles),
  )

  pieces-NoBreak :
      (pkt : Option Packet) (cs : List Column)
      → All (HasCleanCell lib s a clean) cs
      → All (HasCleanTitle lib s a clean) cs
      → All NoBreak (full_text lib s (pieces cs pkt))
  unfolding pieces full_text
  pieces-NoBreak pkt [] cells titles = tt
  pieces-NoBreak pkt (c ∷ cs) (cell, cells) (title, titles) =
      content-NoBreak pkt c (more_pieces cs pkt) cell title
        (more_pieces-NoBreak pkt cs cells titles)

  row-NoBreak :
      (fields : ℕ) (pkt : Option Packet)
      → All NoBreak (full_text lib s (pieces (selected fields (columns lib s)) pkt))
  row-NoBreak fields pkt =
      pieces-NoBreak pkt (selected fields (columns lib s))
        (selected-All (HasCleanCell lib s a clean) fields (columns lib s)
          (columns-HasCleanCell lib s a clean))
        (selected-All (HasCleanTitle lib s a clean) fields (columns lib s)
          (are_names-HasCleanTitle lib s a clean (columns lib s) (columns-names lib s a clean)))

  -- The texts of the selected fields have one separator less than there are fields.
  pub row-separators :
      (fields : ℕ) (pkt : Option Packet)
      → separators s false (full_text lib s (pieces (selected fields (columns lib s)) pkt))
        ≡ length (selected fields (columns lib s)) - 1
  row-separators fields pkt =
      pieces-separators pkt (selected fields (columns lib s))
        (selected-All (HasCleanCell lib s a clean) fields (columns lib s)
          (columns-HasCleanCell lib s a clean))
        (selected-All (HasCleanTitle lib s a clean) fields (columns lib s)
          (are_names-HasCleanTitle lib s a clean (columns lib s) (columns-names lib s a clean)))

  -- For a separator of ASCII that the configuration allows, and printed addresses and names without
  -- it, without a newline and without a NUL: if what the fields of a packet, or of the header, print
  -- is defined and has at most 2046 bytes, then one line is written, with a newline at its end and
  -- none before it, and no NUL; and it has one separator less than there are selected fields, so a
  -- packet has as many fields as the header.
  pub write_packet-separators :
      (fields : ℕ) (pkt : Option Packet)
      → All IsDefined (row lib fields s pkt)
      → length (full_text lib s (row lib fields s pkt)) ≤ outbuf_size - 2
      → (text : List ℕ) × (write_packet lib fields s pkt ≡ some (text ++ newline ∷ []))
        × (separators s false text ≡ length (selected fields (columns lib s)) - 1)
        × All NoBreak text
  write_packet-separators fields pkt d fits = (
    full_text lib s (row lib fields s pkt),
    write_packet-full_text lib fields s pkt d fits,
    row-separators fields pkt,
    row-NoBreak fields pkt,
  )
