-- ===== src/Tests/Text.antt =====
-- The text of a few bytes.
use dns_collector.Prelude.{
  ℕ, ◌≡◌, refl, ◌&&◌, Bool, true, false, some, List, [], ◌∷◌, ◌+◌, ◌/◌, ◌%◌, All, inl, ltb, arith,
}
use dns_collector.Escape.{snescape, newline}
use dns_collector.Escape.Bounds.{Cut, snescape-Cut}
use dns_collector.Escape.RoundTrip.{invisible_ambiguous}
use dns_collector.Escape.Lines.{NoBreak, is_guarded, snescape_one_field}

abbrev is_graph : ℕ → Bool
is_graph c = ltb 32 c && ltb c 127

abbrev tab : ℕ
tab = 9

-- "a,b" and a newline
abbrev bytes : List ℕ
bytes = b'a' ∷ b',' ∷ b'b' ∷ newline ∷ []

snescape-Cut_example : Cut is_graph (some b',') 4 [] bytes (snescape is_graph 5 (some b',') bytes)
snescape-Cut_example = snescape-Cut is_graph (some b',') 5 bytes (omega arith)

snescape_one_field_example :
    All NoBreak (snescape is_graph 20 (some b',') bytes)
    × (is_guarded b',' false (snescape is_graph 20 (some b',') bytes) ≡ true)
snescape_one_field_example = snescape_one_field is_graph b',' 20 bytes (inl refl) (omega arith)

invisible_ambiguous_example :
    snescape is_graph 9 (some tab) (tab ∷ [])
    ≡ snescape is_graph 9 (some tab) (0 ∷ (b'0' + tab / 8 % 8) ∷ (b'0' + tab % 8) ∷ [])
invisible_ambiguous_example =
    invisible_ambiguous is_graph tab 9 refl (omega arith) (omega arith) (omega arith) (omega arith)
