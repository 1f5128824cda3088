-- ===== src/Output/Spec.antt =====
-- What the output thread is meant to leave behind: files of consecutive packets.
use dns_collector.Prelude.{
  ℕ, ◌+◌, ◌*◌, ◌%◌, ◌^◌, ◌≤◌, ◌<◌, ◌≡◌, refl, sym, ap, ◌∙◌, append_assoc, append-nil, Bool, true,
  false, Option, none, some, List, [], ◌∷◌, ◌++◌, map, ◌==◌, if◌then◌else◌, ◌⊎◌, is_some, length,
  add64, All, arith,
}
use dns_collector.Packet.{Packet}
use dns_collector.Frame.{Time}
use dns_collector.Clock.{time_strftime}
use dns_collector.Output.{still_running, exited, System, Stream, Output, Format, filename_extra}

-- the packets of one file, and the time when it is opened
pub record Group : Type 0 where
  pub opened : ℕ
  pub packets : List Packet

-- What the system does if nothing goes wrong: files and processes can be opened, a running process
-- goes on until its input is closed, and then ends well. `path_fmt` has an expansion that fits.
pub record IsReliable {W : Type 0} (S : System W) (path_fmt : List ℕ) : Type 0 where
  pub expands :
      (time : ℕ)
      → 0 < length path_fmt
      → 0 < length (time_strftime S.strftime (length path_fmt + filename_extra) path_fmt time)
  pub opens : (w : W) (name : List ℕ) → (w' : W) × (S.fopen w name ≡ some w')
  pub starts :
      (w : W) (cmd name : List ℕ)
      → (pid : ℕ) × (w' : W) × (S.start_subprocess w cmd name ≡ some (pid, w'))
  pub dups : (w : W) → (w' : W) × (S.dup_stdout w ≡ some w')
  pub goes_on : (w : W) (pid : ℕ) → (w' : W) × (S.waitpid w pid false ≡ (still_running, w'))
  pub ends : (w : W) (pid : ℕ) → (w' : W) × (S.waitpid w pid true ≡ (exited 0, w'))

-- the header of a file, the line of a packet, and the packets that a line can be written for
pub record Layout : Type 1 where
  pub header : ℕ → List ℕ
  pub line : Packet → List ℕ
  pub Accepts : Packet → Type 0
  pub request_only : Packet → Bool
  pub response_only : Packet → Bool

-- what a hook has done when it has written `bytes` to the stream
unfoldable pub append_text : {W : Type 0} → Output W → Stream → List ℕ → Output W
append_text out s bytes = record out {
  out_file = some (record s { text = s.text ++ bytes });
  current_bytes = add64 out.current_bytes (length bytes);
}

-- a counter after one event, if it has come
unfoldable pub counted : Bool → ℕ → ℕ
counted b n = if b then add64 n 1 else n

-- the counters after a packet
unfoldable pub count_packet : {W : Type 0} → Layout → Output W → Packet → Output W
unfolding counted
count_packet L out p = record out {
  current_items = add64 out.current_items 1;
  current_request_only = counted (L.request_only p) out.current_request_only;
  current_response_only = counted (L.response_only p) out.current_response_only;
}

-- The hooks write what the layout says, to the open stream, and add the number of its bytes, those
-- of the header as well, to `current_bytes`, a word of 64 bits.
pub record Writes {W : Type 0} (F : Format W) (L : Layout) : Type 0 where
  pub starts :
      (out : Output W) (time : ℕ) (s : Stream)
      → out.out_file ≡ some s
      → out.current_bytes < 2 ^ 64
      → (w : W) × (F.start_file out time
          ≡ some (record (append_text out s (L.header time)) { world = w }))
  pub writes :
      (out : Output W) (p : Packet) (s : Stream)
      → out.out_file ≡ some s
      → L.Accepts p
      → F.write_packet out p ≡ some (count_packet L (append_text out s (L.line p)) p)

-- the text of all packets of a file
unfoldable pub lines : Layout → List Packet → List ℕ
lines L [] = []
lines L (p ∷ ps) = L.line p ++ lines L ps

module _ {W : Type 0} (S : System W) (path_fmt : List ℕ) where
  unfoldable pub name_of : ℕ → List ℕ
  name_of time =
      if length path_fmt == 0
      then []
      else time_strftime S.strftime (length path_fmt + filename_extra) path_fmt time

module _ {W : Type 0} (S : System W) (L : Layout) (path_fmt : List ℕ) where
  -- the file of a group
  unfoldable pub stream_of : Group → Stream
  unfolding name_of lines
  stream_of g = record {
    name = name_of S path_fmt g.opened;
    opened = g.opened;
    text = L.header g.opened ++ lines L g.packets;
  }

-- Every packet of the file came within the period after the file was opened.
abbrev pub IsTimely : ℕ → Group → Type 0
IsTimely period_sec g = All (λ p. p.ts ≤ g.opened + period_sec * 1000000) g.packets

unfoldable pub packets_in : List Group → List Packet
packets_in [] = []
packets_in (g ∷ gs) = g.packets ++ packets_in gs

-- the number of packets of a kind
unfoldable pub count_if : (Packet → Bool) → List Packet → ℕ
count_if f [] = 0
count_if f (p ∷ ps) = (if f p then 1 else 0) + count_if f ps

pub count_if-append :
    (f : Packet → Bool) (xs ys : List Packet)
    → count_if f (xs ++ ys) ≡ count_if f xs + count_if f ys
unfolding count_if
count_if-append f [] ys = omega arith
count_if-append f (x ∷ xs) ys = omega (arith, count_if-append f xs ys)

-- the number of bytes in the files
unfoldable pub bytes_in : Layout → List Group → ℕ
unfolding lines
bytes_in L [] = 0
bytes_in L (g ∷ gs) = length (L.header g.opened ++ lines L g.packets) + bytes_in L gs

pub bytes_in-append :
    (L : Layout) (a b : List Group) → bytes_in L (a ++ b) ≡ bytes_in L a + bytes_in L b
unfolding bytes_in
bytes_in-append L [] b = omega arith
bytes_in-append L (g ∷ a) b = omega (arith, bytes_in-append L a b)

pub packets_in-append : (a b : List Group) → packets_in (a ++ b) ≡ packets_in a ++ packets_in b
unfolding packets_in
packets_in-append [] b = refl
packets_in-append (g ∷ a) b =
    ap (λ x. g.packets ++ x) (packets_in-append a b)
    ∙ sym (append_assoc g.packets (packets_in a) (packets_in b))

pub packets_in-snoc :
    (done : List Group) (g : Group) (p : Packet)
    → packets_in (done ++ record g { packets = g.packets ++ p ∷ [] } ∷ [])
      ≡ packets_in (done ++ g ∷ []) ++ p ∷ []
unfolding packets_in
packets_in-snoc [] g p = rw (append-nil (g.packets ++ p ∷ []), append-nil g.packets) refl
packets_in-snoc (d ∷ done) g p =
    ap (λ x. d.packets ++ x) (packets_in-snoc done g p) ∙ sym (append_assoc d.packets _ (p ∷ []))

pub lines-snoc :
    (L : Layout) (ps : List Packet) (p : Packet) → lines L (ps ++ p ∷ []) ≡ lines L ps ++ L.line p
unfolding lines
lines-snoc L [] p = append-nil (L.line p)
lines-snoc L (q ∷ ps) p =
    ap (λ x. L.line q ++ x) (lines-snoc L ps p)
    ∙ sym (append_assoc (L.line q) (lines L ps) (L.line p))

abbrev pub the_open : Option Group → List Group
the_open none = []
the_open (some g) = g ∷ []

abbrev pub OpenedAt : Option Group → Time → Type 0
OpenedAt none t = Unit
OpenedAt (some g) t = t ≡ some g.opened

abbrev pub open_stream_of : {W : Type 0} → System W → Layout → List ℕ → Option Group → Option Stream
open_stream_of S L path_fmt none = none
open_stream_of S L path_fmt (some g) = some (stream_of S L path_fmt g)

-- The files `done` have been closed, and the file `now` is open, if there is one. The totals are
-- those of the closed files, and the current counters those of the open one; all are 64 bits wide.
pub record IsWriting {W : Type 0} (S : System W) (L : Layout) (path_fmt : List ℕ) (period_sec : ℕ)
    (out : Output W) (done : List Group) (now : Option Group) : Type 0 where
  pub same_fmt : out.path_fmt ≡ path_fmt
  pub same_period : out.period_sec ≡ period_sec
  pub files : out.closed ≡ map (stream_of S L path_fmt) done
  pub file : out.out_file ≡ open_stream_of S L path_fmt now
  pub named : is_some out.path ≡ is_some now
  pub opened : OpenedAt now out.output_opened
  pub clock : (is_some now ≡ true) → is_some out.current_time ≡ true
  pub items : out.total_items ≡ length (packets_in done) % 2 ^ 64
  pub items_now : out.current_items ≡ length (packets_in (the_open now)) % 2 ^ 64
  pub requests : out.total_request_only ≡ count_if L.request_only (packets_in done) % 2 ^ 64
  pub requests_now :
      out.current_request_only ≡ count_if L.request_only (packets_in (the_open now)) % 2 ^ 64
  pub responses : out.total_response_only ≡ count_if L.response_only (packets_in done) % 2 ^ 64
  pub responses_now :
      out.current_response_only ≡ count_if L.response_only (packets_in (the_open now)) % 2 ^ 64
  pub bytes : out.total_bytes ≡ bytes_in L done % 2 ^ 64
  pub bytes_now : out.current_bytes ≡ bytes_in L (the_open now) % 2 ^ 64
  pub timely : (period_sec ≡ 0) ⊎ All (IsTimely period_sec) (done ++ the_open now)
