-- ===== src/Output.antt =====
-- src/output.c: the output thread, which writes packets to files and starts a new file after a
-- period. `none` is a failed assertion or `die`. What the code asks of the system is an argument.
pub mod Spec
pub mod Counters
pub mod Steps
pub mod Files
use dns_collector.Prelude.{
  ℕ, zero, suc, ◌+◌, Bool, true, false, not, ◌&&◌, Option, none, some, List, [], ◌∷◌, ◌++◌, ◌==◌,
  ltb, if◌then◌else◌, length, add64, max, assert, ◌>>=◌, ◌>>◌, is_some,
}
use dns_collector.Packet.{Packet}
use dns_collector.Frame.{Time, Frame}
use dns_collector.Clock.{time_strftime, next_rotation}

-- how `waitpid` ends
pub data Waited : Type 0 where
  wait_error still_running killed : Waited
  exited : ℕ → Waited

-- The system, in a state of type `W`: `strftime`; `fopen`; the start of a subprocess with its pipe
-- and `fdopen`, which gives its process number; `dup` and `fdopen` of the standard output; `waitpid`.
pub record System (W : Type 0) : Type 0 where
  pub strftime : ℕ → List ℕ → ℕ → List ℕ
  pub fopen : W → List ℕ → Option W
  pub start_subprocess : W → List ℕ → List ℕ → Option (ℕ × W)
  pub dup_stdout : W → Option W
  pub waitpid : W → ℕ → Bool → Waited × W

-- A stream, from one `fopen` to its `fclose`: the name of its file, the time when it was opened, and
-- what has been written to it. The files of the disk are in the state `W`; that `fopen(path, "w")`
-- empties an earlier file of the same name, and two streams may so have one name, is not modelled.
pub record Stream : Type 0 where
  pub name : List ℕ
  pub opened : ℕ
  pub text : List ℕ

-- `struct dns_output`; `closed` has the streams that were closed, and `world` the system's state
pub record Output (W : Type 0) : Type 0 where
  pub world : W
  pub closed : List Stream
  pub out_file : Option Stream
  pub period_sec : ℕ
  pub output_opened : Time
  pub total_items : ℕ
  pub total_request_only : ℕ
  pub total_response_only : ℕ
  pub total_bytes : ℕ
  pub current_items : ℕ
  pub current_request_only : ℕ
  pub current_response_only : ℕ
  pub current_bytes : ℕ
  pub current_time : Time
  pub path : Option (List ℕ)
  pub path_fmt : List ℕ
  pub pipe_cmd : List ℕ
  pub pipe_pid : ℕ

abbrev pub filename_extra : ℕ
filename_extra = 64

-- `dns_output_init`; a missing string is the empty one
unfoldable pub init : {W : Type 0} → W → List ℕ → List ℕ → ℕ → Output W
init world path_fmt pipe_cmd period_sec = record {
  world = world;
  closed = [];
  out_file = none;
  period_sec = period_sec;
  output_opened = none;
  total_items = 0;
  total_request_only = 0;
  total_response_only = 0;
  total_bytes = 0;
  current_items = 0;
  current_request_only = 0;
  current_response_only = 0;
  current_bytes = 0;
  current_time = none;
  path = none;
  path_fmt = path_fmt;
  pipe_cmd = pipe_cmd;
  pipe_pid = 0;
}

-- `MAX(current, time)`, where DNS_NO_TIME is the least number
unfoldable pub later : Time → ℕ → Time
later none time = some time
later (some t) time = some (max t time)

-- the counters when a stream is closed
unfoldable pub add_totals : {W : Type 0} → Output W → Output W
add_totals out = record out {
  total_items = add64 out.total_items out.current_items;
  total_request_only = add64 out.total_request_only out.current_request_only;
  total_response_only = add64 out.total_response_only out.current_response_only;
  total_bytes = add64 out.total_bytes out.current_bytes;
  current_items = 0;
  current_request_only = 0;
  current_response_only = 0;
  current_bytes = 0;
}

-- the hooks `start_file` and `write_packet`; `finish_file` is NULL in both kinds of output
pub record Format (W : Type 0) : Type 0 where
  pub start_file : Output W → ℕ → Option (Output W)
  pub write_packet : Output W → Packet → Option (Output W)

module _ {W : Type 0} (S : System W) where
  -- what `dns_output_wait_for_pipe_process` makes of the status
  unfoldable pub pipe_status : Output W → Waited × W → Option (ℕ × Output W)
  pipe_status out (wait_error, w) = none
  pipe_status out (still_running, w) = some (0, record out { world = w })
  pipe_status out (killed, w) = some (2, record out { world = w; pipe_pid = 0 })
  pipe_status out (exited s, w) =
      some (if s == 0 then 1 else 2, record out { world = w; pipe_pid = 0 })

  -- `dns_output_wait_for_pipe_process`
  unfoldable pub wait_for_pipe_process : Output W → Bool → Option (ℕ × Output W)
  unfolding pipe_status
  wait_for_pipe_process out wait =
      if out.pipe_pid == 0
      then some (0, out)
      else pipe_status out (S.waitpid out.world out.pipe_pid wait)

  -- the name of the next file
  unfoldable pub expand_path : Output W → ℕ → Option (List ℕ)
  expand_path out time =
      let name =
        time_strftime S.strftime (length out.path_fmt + filename_extra) out.path_fmt time in
      if length out.path_fmt == 0 then some [] else if length name == 0 then none else some name

  -- the three ways to get a stream
  unfoldable pub open_stream : Output W → List ℕ → Option (ℕ × W)
  open_stream out name =
      if not (length out.pipe_cmd == 0)
      then S.start_subprocess out.world out.pipe_cmd name
      else if not (length name == 0)
      then (S.fopen out.world name >>= λ w. some (out.pipe_pid, w))
      else (S.dup_stdout out.world >>= λ w. some (out.pipe_pid, w))

  module _ (F : Format W) where
    -- `dns_output_open`
    unfoldable pub open_output : Output W → ℕ → Option (Output W)
    unfolding expand_path open_stream later
    open_output out time = do
      assert (not (is_some out.path) && not (is_some out.out_file))
      name ← expand_path out time
      (pid, w) ← open_stream out name
      let stream : Stream = record { name = name; opened = time; text = [] }
      F.start_file
          (record out {
            world = w;
            path = some name;
            pipe_pid = pid;
            out_file = some stream;
            output_opened = some time;
            current_time = later out.current_time time;
          })
          time

  -- `dns_output_close`; the rates are only logged
  unfoldable pub close_output : Output W → ℕ → Option (Output W)
  unfolding add_totals wait_for_pipe_process later
  close_output out time = do
    assert (is_some out.path)
    stream ← out.out_file
    (status, out') ←
        wait_for_pipe_process
          (record (add_totals out) {
            current_time = later out.current_time time;
            closed = out.closed ++ stream ∷ [];
            out_file = none;
            path = none;
          })
          true
    if status == 2 then none else some out'

  -- the test of `dns_output_check_rotation`
  unfoldable pub must_close : Output W → ℕ → Bool
  must_close out time =
      is_some out.out_file
      && (ltb 0 out.period_sec && next_rotation 0 out.period_sec out.output_opened (some time))

  module _ (F : Format W) where
    unfoldable pub open_if_closed : Output W → ℕ → Option (Output W)
    unfolding open_output
    open_if_closed out time = if is_some out.out_file then some out else open_output F out time

    -- `dns_output_check_rotation`
    unfoldable pub check_rotation : Output W → ℕ → Option (Output W)
    unfolding must_close close_output open_if_closed later
    check_rotation out time = do
      out' ← (if must_close out time then close_output out time else some out)
      out'' ← open_if_closed out' time
      some (record out'' { current_time = later out''.current_time time })

    -- the loop over the packets of a frame
    unfoldable pub write_packets : List Packet → Output W → Option (Output W)
    unfolding check_rotation
    write_packets [] out = some out
    write_packets (p ∷ ps) out = do
      out' ← check_rotation out p.ts
      out'' ← F.write_packet out' p
      write_packets ps out''

    -- a regular frame
    unfoldable pub write_frame : Frame → ℕ → Output W → Option (Output W)
    unfolding wait_for_pipe_process write_packets
    write_frame f start out = do
      (status, out') ← wait_for_pipe_process out false
      assert (status == 0)
      out'' ← check_rotation out' start
      write_packets f.packets out''

    -- the end of `dns_output_main`: `if (out->out_file)`
    unfoldable pub close_if_open : Output W → Option Stream → Option (Output W)
    unfolding close_output
    close_if_open out none = some out
    close_if_open out (some stream) = out.current_time >>= λ t. close_output out t

    -- a frame before the final one, by its `time_start`
    unfoldable pub handle_frame : Frame → Time → Output W → Option (Output W)
    unfolding write_frame
    handle_frame f none out = assert (f.count == 0) >> some out
    handle_frame f (some start) out = write_frame f start out

    -- `dns_output_main` on the frames that the queue hands over, up to the final one
    unfoldable pub main : List Frame → Output W → Option (Output W)
    unfolding handle_frame close_if_open
    main [] out = none
    main (f ∷ fs) out =
        let rest = (handle_frame f f.time_start out >>= main fs) in
        if f.type == 1 then assert (f.count == 0) >> close_if_open out out.out_file else rest
