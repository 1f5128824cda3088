-- ===== src/Tests/Pipeline.antt =====
-- The whole collector over a file with a request and its response, with one byte written for a
-- packet.
use dns_collector.Prelude.{
  ◌<◌, ◌+◌, ◌^◌, refl, false, true, some, [], ◌∷◌, List, length, arith, bytes_eq, ◌>>=◌, >>=-some,
  All, ℕ,
}
use dns_collector.Packet.{Packet, PacketData}
use dns_collector.Input.{create as create_input}
use dns_collector.Input.Run.{received, packet_in}
use dns_collector.Matcher.{create as create_matcher}
use dns_collector.Matcher.Run.{AllNew}
use dns_collector.Output.{Format, init}
use dns_collector.Output.Spec.{Layout, Writes, append_text, count_packet}
use dns_collector.Pipeline.{collect, Collects, collect-Collects}
use dns_collector.Tests.Input.{reader, events, good, good-Succeeds, reader-Dumps}
use dns_collector.Tests.Output.{a_name, system, system-IsReliable}
use dns_collector.Tests.Run.{seed_set}

abbrev one_byte : Layout
one_byte = record {
  header = λ time. [];
  line = λ p. b'p' ∷ [];
  Accepts = λ p. Unit;
  request_only = λ p. false;
  response_only = λ p. false;
}

abbrev one_byte_format : Format ℕ
one_byte_format = record {
  start_file = λ out time. out.out_file >>= λ s. some (append_text out s []);
  write_packet =
      λ out p. out.out_file >>= λ s. some (count_packet one_byte (append_text out s (b'p' ∷ [])) p);
}

one_byte_format-Writes : Writes one_byte_format one_byte
unfolding append_text
one_byte_format-Writes = record {
  starts = λ out time s e small. (out.world, >>=-some e _);
  writes = λ out p s e ok. >>=-some e _;
}

abbrev Any : PacketData → Type 0
Any d = Unit

abbrev both : List Packet
both = received reader events

both-AllNew : AllNew both
unfolding received packet_in
both-AllNew = ((refl, (refl, tt)), (((λ e. omega (arith, e)), tt), (tt, tt)))

both-few : length both < 2 ^ 50
unfolding received packet_in
both-few = omega arith

both-good : All (λ p. Any p.body) both
unfolding received packet_in
both-good = (tt, (tt, tt))

collect-Collects_example :
    Collects reader system a_name system-IsReliable one_byte_format one_byte one_byte_format-Writes
      60 bytes_eq true both
      (collect reader system one_byte_format bytes_eq good events
        (create_input 0 2000 1000 500 60 true)
        (λ frames. create_matcher 1000 2 frames 3000 2000 1000 true)
        (length both + 1)
        (init 0 a_name [] 60))
collect-Collects_example =
    collect-Collects reader system a_name system-IsReliable one_byte_format one_byte
      one_byte_format-Writes 60 bytes_eq true Any 0 0 2000 1000 500 60 3000 1000 1000 2 true [] good
      events reader-Dumps good-Succeeds tt (omega arith) (omega arith) seed_set both-AllNew both-few
      both-good (λ p h. tt)
