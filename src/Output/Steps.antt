-- ===== src/Output/Steps.antt =====
-- The steps of the output thread: open, close, rotate, write.
use dns_collector.Prelude.{
  ℕ, ◌+◌, ◌*◌, ◌≤◌, ◌<◌, ◌≡◌, refl, sym, ◌∙◌, ap, subst, true, false, not, ◌&&◌, Option, none, some,
  List, [], ◌∷◌, ◌++◌, map, append_assoc, append-nil, ◌==◌, ◌⊎◌, inl, inr, Bool-cases, is_some,
  length, All, All-append, All-left, All-right, arith, >>=-some, assert,
}
use dns_collector.Packet.{Packet}
use dns_collector.Frame.{Time}
use dns_collector.Clock.{time_strftime}
use dns_collector.Output.{
  System, Stream, Output, Format, filename_extra, later, pipe_status, wait_for_pipe_process,
  expand_path, open_stream, open_output, add_totals, close_output,
}
use dns_collector.Output.Counters.{
  total_if, one_more_if, empty_now, header_bytes, total_items, total_bytes, one_more, line_bytes,
}
use dns_collector.Output.Spec.{
  Group, IsReliable, Layout, append_text, count_if, count_packet, Writes, lines, name_of, stream_of,
  IsTimely, packets_in, bytes_in, lines-snoc, IsWriting,
}

map-snoc :
    {A B : Type 0} → (f : A → B) (xs : List A) (a : A) → map f (xs ++ a ∷ []) ≡ map f xs ++ f a ∷ []
map-snoc f [] a = refl
map-snoc f (x ∷ xs) a = ap (λ y. f x ∷ y) (map-snoc f xs a)

pub later-is_some : (t : Time) (time : ℕ) → is_some (later t time) ≡ true
unfolding later
later-is_some none time = refl
later-is_some (some t) time = refl

module _ {W : Type 0} (S : System W) (path_fmt : List ℕ) (r : IsReliable S path_fmt) where
  -- a check of the subprocess finds nothing
  pub wait_lem :
      (out : Output W)
      → (w : W) × (wait_for_pipe_process S out false ≡ some (0, record out { world = w }))
  unfolding wait_for_pipe_process pipe_status
  wait_lem out = elim (Bool-cases (out.pipe_pid == 0)) [
    | inl e ↦ (out.world, rw e refl)
    | inr e ↦ let (w, ran) = r.goes_on out.world out.pipe_pid in (w, rw (e, ran) refl)
  ]

  -- the wait at the end of a file ends, and the subprocess is gone
  pub wait_end :
      (out : Output W)
      → (w : W) × (status : ℕ) × (wait_for_pipe_process S out true
          ≡ some (status, record out { world = w; pipe_pid = 0 }))
        × (status < 2)
  unfolding wait_for_pipe_process pipe_status
  wait_end out = elim (Bool-cases (out.pipe_pid == 0)) [
    | inl e ↦
        let none_there : out.pipe_pid ≡ 0 = ground (arith, e) in
        (
          out.world,
          0,
          rw e (ap (λ x. some (0, record out { pipe_pid = x })) none_there),
          omega arith,
        )
    | inr e ↦ let (w, ran) = r.ends out.world out.pipe_pid in (w, 1, rw (e, ran) refl, omega arith)
  ]

  pub expand_path-name_of :
      (out : Output W) (time : ℕ)
      → out.path_fmt ≡ path_fmt
      → expand_path S out time ≡ some (name_of S path_fmt time)
  unfolding expand_path name_of
  expand_path-name_of out time e = elim (Bool-cases (length path_fmt == 0)) [
    | inl none_given ↦ rw (e, none_given) refl
    | inr given ↦
        let fits : (length
                (time_strftime S.strftime (length path_fmt + filename_extra) path_fmt time)
              == 0)
            ≡ false =
          ground (arith, given, r.expands time) in
        rw (e, given, fits) refl
  ]

  pub open_stream_lem :
      (out : Output W) (name : List ℕ)
      → (pid : ℕ) × (w : W) × (open_stream S out name ≡ some (pid, w))
  unfolding open_stream
  open_stream_lem out name = elim (Bool-cases (length out.pipe_cmd == 0)) [
    | inr e ↦ let (pid, w, ran) = r.starts out.world out.pipe_cmd name in (pid, w, rw e ran)
    | inl e ↦ elim (Bool-cases (length name == 0)) [
      | inr n ↦ let (w, ran) = r.opens out.world name in (out.pipe_pid, w, rw (e, n, ran) refl)
      | inl n ↦ let (w, ran) = r.dups out.world in (out.pipe_pid, w, rw (e, n, ran) refl)
    ]
  ]

module _ {W : Type 0} (S : System W) (path_fmt : List ℕ) (r : IsReliable S path_fmt) (F : Format W)
    (L : Layout) (fw : Writes F L) (period_sec : ℕ) where
  abbrev Is : Output W → List Group → Option Group → Type 0
  Is = IsWriting S L path_fmt period_sec

  closed_now :
      (out : Output W) (done : List Group)
      → Is out done none
      → assert (not (is_some out.path) && not (is_some out.out_file)) ≡ some tt
  closed_now out done v = rw (v.named, v.file) refl

  -- a file is opened, and has its header
  pub open_output-IsWriting :
      (out : Output W) (done : List Group) (time : ℕ)
      → Is out done none
      → (out' : Output W) × (open_output S F out time ≡ some out')
        × Is out' done (some (record { opened = time; packets = [] }))
  unfolding open_output stream_of append_text lines packets_in count_if
  open_output-IsWriting out done time v =
      let (pid, w, opened) = open_stream_lem S path_fmt r out (name_of S path_fmt time) in
      let s : Stream = record { name = name_of S path_fmt time; opened = time; text = [] } in
      let out1 : Output W = record out {
        world = w;
        path = some (name_of S path_fmt time);
        pipe_pid = pid;
        out_file = some s;
        output_opened = some time;
        current_time = later out.current_time time;
      } in
      let (w', ran) =
        fw.starts out1 time s refl (omega (arith, empty_now L out.current_bytes v.bytes_now)) in
      (
        record (append_text out1 s (L.header time)) { world = w' },
        >>=-some (closed_now out done v) _
            ∙ >>=-some (expand_path-name_of S path_fmt r out time v.same_fmt) _
            ∙ >>=-some opened _
            ∙ ran,
        record {
          same_fmt = v.same_fmt;
          same_period = v.same_period;
          files = v.files;
          file =
              ap (λ x. some (record { name = name_of S path_fmt time; opened = time; text = x }))
                (sym (append-nil (L.header time)));
          named = refl;
          opened = refl;
          clock = λ _. later-is_some out.current_time time;
          items = v.items;
          items_now = v.items_now;
          requests = v.requests;
          requests_now = v.requests_now;
          responses = v.responses;
          responses_now = v.responses_now;
          bytes = v.bytes;
          bytes_now = header_bytes L time out.current_bytes v.bytes_now;
          timely = elim v.timely [
            | inl e ↦ inl e
            | inr all ↦ inr (All-append _ done _ (All-left _ done [] all) (tt, tt))
          ];
        },
      )

  -- the open file is closed
  pub close_output-IsWriting :
      (out : Output W) (done : List Group) (g : Group) (time : ℕ)
      → Is out done (some g)
      → (out' : Output W) × (close_output S out time ≡ some out') × Is out' (done ++ g ∷ []) none
  unfolding close_output add_totals packets_in bytes_in count_if
  close_output-IsWriting out done g time v =
      let named : assert (is_some out.path) ≡ some tt = rw v.named refl in
      let closing : Output W = record (add_totals out) {
        current_time = later out.current_time time;
        closed = out.closed ++ stream_of S L path_fmt g ∷ [];
        out_file = none;
        path = none;
      } in
      let (w, status, ran, ok) = wait_end S path_fmt r closing in
      let good : (status == 2) ≡ false = ground (arith, ok) in
      (
        record closing { world = w; pipe_pid = 0 },
        >>=-some named _ ∙ >>=-some v.file _ ∙ >>=-some ran _ ∙ rw good refl,
        record {
          same_fmt = v.same_fmt;
          same_period = v.same_period;
          files =
              ap (λ x. x ++ stream_of S L path_fmt g ∷ []) v.files
              ∙ sym (map-snoc (stream_of S L path_fmt) done g);
          file = refl;
          named = refl;
          opened = tt;
          clock = λ h. cc;
          items = total_items L done g out.total_items out.current_items v.items v.items_now;
          items_now = refl;
          requests =
              total_if L.request_only done g out.total_request_only out.current_request_only
                v.requests v.requests_now;
          requests_now = refl;
          responses =
              total_if L.response_only done g out.total_response_only out.current_response_only
                v.responses v.responses_now;
          responses_now = refl;
          bytes = total_bytes L done g out.total_bytes out.current_bytes v.bytes v.bytes_now;
          bytes_now = refl;
          timely = elim v.timely [
            | inl e ↦ inl e
            | inr all ↦
                inr (subst (All (IsTimely period_sec)) (sym (append-nil (done ++ g ∷ []))) all)
          ];
        },
      )

  IsTimely-snoc :
      (done : List Group) (g : Group) (p : Packet)
      → (period_sec ≡ 0) ⊎ (p.ts ≤ g.opened + period_sec * 1000000)
      → (period_sec ≡ 0) ⊎ All (IsTimely period_sec) (done ++ g ∷ [])
      → (period_sec ≡ 0)
        ⊎ All (IsTimely period_sec) (done ++ record g { packets = g.packets ++ p ∷ [] } ∷ [])
  IsTimely-snoc done g p (inl e) t = inl e
  IsTimely-snoc done g p (inr soon) (inl e) = inl e
  IsTimely-snoc done g p (inr soon) (inr all) = inr (
      All-append _ done _ (All-left _ done _ all)
        (All-append _ g.packets (p ∷ []) (All-right _ done _ all).0 (soon, tt), tt))

  -- Packets are written to the open file.
  pub write_packet-IsWriting :
      (out : Output W) (done : List Group) (g : Group) (p : Packet)
      → Is out done (some g)
      → L.Accepts p
      → (period_sec ≡ 0) ⊎ (p.ts ≤ g.opened + period_sec * 1000000)
      → (out' : Output W) × (F.write_packet out p ≡ some out')
        × Is out' done (some (record g { packets = g.packets ++ p ∷ [] }))
  unfolding append_text count_packet stream_of
  write_packet-IsWriting out done g p v ok soon = (
    _,
    fw.writes out p (stream_of S L path_fmt g) v.file ok,
    record {
      same_fmt = v.same_fmt;
      same_period = v.same_period;
      files = v.files;
      file =
          ap
            (λ x. some (record { name = name_of S path_fmt g.opened; opened = g.opened; text = x }))
            (append_assoc (L.header g.opened) (lines L g.packets) (L.line p)
              ∙ ap (λ x. L.header g.opened ++ x) (sym (lines-snoc L g.packets p)));
      named = v.named;
      opened = v.opened;
      clock = v.clock;
      items = v.items;
      items_now = one_more L g p out.current_items v.items_now;
      requests = v.requests;
      requests_now = one_more_if L.request_only g p out.current_request_only v.requests_now;
      responses = v.responses;
      responses_now = one_more_if L.response_only g p out.current_response_only v.responses_now;
      bytes = v.bytes;
      bytes_now = line_bytes L g p out.current_bytes v.bytes_now;
      timely = IsTimely-snoc done g p soon v.timely;
    },
  )
