-- ===== src/Input/Open.antt =====
-- Opening a trace: what follows a success, and what an error leaves behind.
use dns_collector.Prelude.{
  ℕ, ◌<◌, ◌≡◌, refl, ap, ◌∙◌, Bool, true, false, none, some, List, [], ◌++◌, if◌then◌else◌, ◌>>=◌,
  >>=-some, not, assert, ◌>>◌,
}
use dns_collector.Packet.{Packet}
use dns_collector.Frame.{Time, Frame}
use dns_collector.Frame.{create as create_frame}
use dns_collector.Input.{
  Reader, Input, Event, ret_ok, ret_err, Opening, create, advance_time_to, advance_online,
  start_trace, apply_filter, configure, trace_open, mark_report, process_opened, process,
}
use dns_collector.Frame.Packets.{packets_of}
use dns_collector.Input.Frames.{Holds, create-IsRegular}
use dns_collector.Input.Run.{received, Stops, Dumps, Closes, Holds-same, process_loop-Closes}

-- Everything that opening a trace calls is a success.
pub record Succeeds (o : Opening) : Type 0 where
  pub created : o.created ≡ true
  pub configured : o.configured ≡ true
  pub filter_set : o.filter_set ≡ true
  pub started : o.started ≡ true
  pub allocated : o.allocated ≡ true

module _ {W Raw : Type 0} (R : Reader W Raw) where
  advance_online-offline :
      (input : Input W) → input.online ≡ false → advance_online R input ≡ some input
  unfolding advance_online
  advance_online-offline input offline =
      let (now, w) = R.current_us_time input.world in
      ap (λ b. if b then advance_time_to R (record input { world = w }) now else some input) offline

  start_trace_lem :
      (o : Opening) (input : Input W)
      → o.started ≡ true
      → o.allocated ≡ true
      → start_trace R o input ≡ some (ret_ok, input)
  unfolding start_trace
  start_trace_lem o input started allocated = rw (started, allocated) refl

  mark_report-Holds :
      (opened : Bool) (duration : ℕ) (positive : 0 < duration) (input : Input W) (f : Frame)
      (last : Time) (ps : List Packet)
      → Holds opened duration input f ps
      → Holds opened duration (mark_report R input last) f ps
  unfolding mark_report
  mark_report-Holds opened duration positive input f none ps h =
      Holds-same R opened duration positive input _ f ps refl refl refl refl h
  mark_report-Holds opened duration positive input f (some t) ps h = h

  -- the test for an open trace, and the creation of one
  trace_open_lem :
      (o : Opening) (input : Input W)
      → input.trace ≡ false
      → o.created ≡ true
      → trace_open R o input ≡ (advance_online R (record input { trace = true }) >>= configure R o)
  unfolding trace_open
  trace_open_lem o input closed created =
      let begin =
        if o.created
        then advance_online R (record input { trace = true }) >>= configure R o
        else some (ret_err, input) in
      ap (λ b. assert (not b) >> begin) closed ∙ rw created refl

  configure_lem :
      (o : Opening) (input : Input W)
      → o.configured ≡ true
      → input.bpf_filter ≡ false
      → configure R o input ≡ (
          if o.filter_set
          then start_trace R o (record input { bpf_filter = true })
          else some (ret_err, record input { bpf_filter = true; trace = false }))
  unfolding configure apply_filter
  configure_lem o input configured unfiltered =
      let filter =
        if o.filter_set
        then start_trace R o (record input { bpf_filter = true })
        else some (ret_err, record input { bpf_filter = true; trace = false }) in
      rw configured (ap (λ b. assert (not b) >> filter) unfiltered)

  -- After an error of the filter the filter stays set, so the next trace, if it gets as far, ends the
  -- program with a failed assertion.
  pub trace_open-stale_filter :
      (o : Opening) (input : Input W)
      → input.online ≡ false
      → input.trace ≡ false
      → input.bpf_filter ≡ false
      → o.created ≡ true
      → o.configured ≡ true
      → o.filter_set ≡ false
      → (left : Input W) × (trace_open R o input ≡ some (ret_err, left))
        × ((next : Opening)
            → next.created ≡ true
            → next.configured ≡ true
            → trace_open R next left ≡ none)
  unfolding configure apply_filter
  trace_open-stale_filter o input offline closed unfiltered created configured refused =
      let left : Input W = record input { bpf_filter = true; trace = false } in
      let started : Input W = record input { trace = true } in
      (
        left,
        trace_open_lem o input closed created
            ∙ >>=-some (advance_online-offline started offline) (configure R o)
            ∙ configure_lem o started configured unfiltered
            ∙ rw refused refl,
        λ next c g.
            trace_open_lem next left refl c
            ∙ >>=-some (advance_online-offline (record left { trace = true }) offline)
                (configure R next)
            ∙ rw g refl,
      )

  -- If opening succeeds, the longest duration is not zero, the dump can be written and the trace
  -- comes to an end, then a file that is read after others leaves the frames with the packets that
  -- were there before and the file's own packets behind them, in order, and the trace closed.
  pub process-Closes :
      (duration : ℕ) (positive : 0 < duration) (dumps : Dumps R) (o : Opening)
      (evs : List (Event Raw)) (input : Input W) (f : Frame) (ps : List Packet)
      → Succeeds o
      → Stops R evs
      → input.online ≡ false
      → input.bpf_filter ≡ false
      → Holds false duration input f ps
      → Closes R duration positive dumps (ps ++ received R evs) (process R o evs input)
  unfolding process process_opened
  process-Closes duration positive dumps o evs input f ps ok stops offline unfiltered h =
      let filtered : Input W = record input { trace = true; bpf_filter = true } in
      let started : Input W = record input { trace = true } in
      let opens : trace_open R o input ≡ some (ret_ok, filtered) =
        trace_open_lem o input h.same_trace ok.created
        ∙ >>=-some (advance_online-offline started offline) (configure R o)
        ∙ configure_lem o started ok.configured unfiltered
        ∙ rw ok.filter_set (start_trace_lem o filtered ok.started ok.allocated) in
      let h1 : Holds true duration filtered f ps = record {
        same_duration = h.same_duration;
        same_trace = refl;
        current = h.current;
        regular = h.regular;
        handed_over = h.handed_over;
        conserved = h.conserved;
      } in
      let marked = mark_report R filtered filtered.last_report_time in
      let h2 =
        mark_report-Holds true duration positive filtered f filtered.last_report_time ps h1 in
      let (r, input', f', ran, h') =
        process_loop-Closes R duration positive dumps evs marked f ps stops h2 in
      (r, input', f', >>=-some opens _ ∙ ran, h')

-- A new input has no packets, no times and no open trace.
pub create-Holds :
    {W : Type 0} (w : W) (duration max_size grace period : ℕ) (dumper : Bool)
    → Holds false duration
        (create w duration max_size grace period dumper)
        (create_frame none none)
        []
unfolding create create_frame packets_of
create-Holds w duration max_size grace period dumper = record {
  same_duration = refl;
  same_trace = refl;
  current = refl;
  regular = create-IsRegular duration none;
  handed_over = tt;
  conserved = refl;
}
