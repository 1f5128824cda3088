-- ===== src/Tests/Output.antt =====
-- The output thread with the CSV hooks, on a system whose state counts its calls.
use dns_collector.Prelude.{
  ℕ, suc, refl, true, Option, some, List, [], ◌∷◌, if◌then◌else◌, All, arith,
}
use dns_collector.Print.{codes}
use dns_collector.Frame.Packets.{packets_of}
use dns_collector.Frame.{Frame}
use dns_collector.Clock.{time_strftime}
use dns_collector.Output.{System, still_running, exited, init, main}
use dns_collector.Output.Spec.{IsReliable, Writes}
use dns_collector.Output.Files.{IsRegular, regular, Ends, main-writes}
use dns_collector.Csv.Hooks.{Options, csv_format}
use dns_collector.Csv.Written.{csv_layout, HasHeaderFile, csv_format-Writes}
use dns_collector.Tests.Csv.{libs, some_fields, pair, pair-IsDefined, pair_fits}

abbrev pub a_name : List ℕ
a_name = codes "out"

abbrev pub system : System ℕ
system = record {
  strftime = λ max format time. codes "2016";
  fopen = λ w name. some (suc w);
  start_subprocess = λ w cmd name. some (7, suc w);
  dup_stdout = λ w. some (suc w);
  waitpid = λ w pid wait. if wait then (exited 0, suc w) else (still_running, w);
}

pub system-IsReliable : IsReliable system a_name
unfolding time_strftime
system-IsReliable = record {
  expands = λ time h. omega arith;
  opens = λ w name. (suc w, refl);
  starts = λ w cmd name. (7, suc w, refl);
  dups = λ w. (suc w, refl);
  goes_on = λ w pid. (w, refl);
  ends = λ w pid. (suc w, refl);
}

abbrev options : Options
options = record {
  separator = b',';
  inline_header = true;
  external_header_path_fmt = codes "header";
  csv_fields = some_fields;
}

abbrev write_file : ℕ → List ℕ → List ℕ → Option ℕ
write_file w name text = some (suc w)

header_file : HasHeaderFile system write_file libs options
unfolding time_strftime
header_file = record { expands = λ time h. omega arith; opens = λ w name text. (suc w, refl) }

csv_format-Writes_example :
    Writes (csv_format system write_file libs options) (csv_layout system write_file libs options)
csv_format-Writes_example = csv_format-Writes system write_file libs options header_file

abbrev two_packets : Frame
two_packets = record {
  type = 0;
  count = 2;
  size = 400;
  time_start = some 5000;
  time_end = some 9000;
  packets = pair ∷ pair ∷ [];
}

abbrev last_frame : Frame
last_frame = record {
  type = 1;
  count = 0;
  size = 0;
  time_start = some 9000;
  time_end = some 9000;
  packets = [];
}

abbrev csv_lines :
    Writes (csv_format system write_file libs options) (csv_layout system write_file libs options)
csv_lines = csv_format-Writes system write_file libs options header_file

two_packets-IsRegular :
    All
      (IsRegular system a_name system-IsReliable
        (csv_format system write_file libs options)
        (csv_layout system write_file libs options)
        csv_lines
        60)
      (two_packets ∷ [])
unfolding csv_layout
two_packets-IsRegular =
    (regular 5000 refl refl ((pair-IsDefined, pair_fits), ((pair-IsDefined, pair_fits), tt)), tt)

main-writes_example :
    Ends system a_name system-IsReliable
      (csv_format system write_file libs options)
      (csv_layout system write_file libs options)
      csv_lines
      60
      (packets_of (two_packets ∷ []))
      (main system
        (csv_format system write_file libs options)
        (two_packets ∷ last_frame ∷ [])
        (init 0 a_name [] 60))
main-writes_example =
    main-writes system a_name system-IsReliable (csv_format system write_file libs options)
      (csv_layout system write_file libs options) csv_lines 60 0 [] (two_packets ∷ []) last_frame
      two_packets-IsRegular (record { last = refl; nothing = refl })
