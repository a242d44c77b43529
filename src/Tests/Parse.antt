-- ===== src/Tests/Parse.antt =====
-- Parsing and the handlers at sample frames and names.
use bpf_broker.Prelude.{
  ℕ, ◌+◌, ◌^◌, ◌<◌, ◌≡◌, ◌↔◌, refl, arith, true, replicate, List, [], ◌∷◌, ◌++◌, some,
}
use bpf_broker.Frame.{payload_base, swap16}
use bpf_broker.Parse.{parse_udp_packet, extract_topic_id}
use bpf_broker.Parse.Headers.{IsUdp, parse_udp_packet_iff}
use bpf_broker.Rewrite.{packed_ip, packed_port}
use bpf_broker.Proto.Text.{padded, read_topic, pack, swap32}
use bpf_broker.Proto.Service.{overread}
use bpf_broker.Proto.Handler.{register_command, subscribe_command, flush_command, handle}
use bpf_broker.Proto.Handler.Topic.{IsLine}
use bpf_broker.Proto.Handler.Commands.{handle-overread}
use bpf_broker.Proto.Store.{Store}
use bpf_broker.Broker.Keys.{extract_topic_id-eq-padded}
use bpf_broker.Broker.Pack.{packed_pack}
use bpf_broker.Tests.Samples.{publish_frame}
use bpf_broker.Tests.Service.{sample, sample_env, registered_t}
use bpf_broker.Tests.Broker.{client}

parse_udp_packet_iff_example : (parse_udp_packet publish_frame ≡ true) ↔ IsUdp 43 publish_frame
parse_udp_packet_iff_example = parse_udp_packet_iff publish_frame

abbrev text_t : List ℕ
text_t = b't' ∷ []

-- The frame names the topic with a newline behind it, the command with a NUL.
extract_topic_id-eq-padded_example :
    extract_topic_id publish_frame (payload_base + 8) ≡ some (padded 1 (read_topic (b't' ∷ 0 ∷ [])))
extract_topic_id-eq-padded_example =
    extract_topic_id-eq-padded publish_frame (payload_base + 8) text_t [] [] 10 0 (refl, tt)
      (refl, tt) (omega arith) refl refl refl

-- Twenty letters
abbrev long_name : List ℕ
long_name = replicate 20 b'a'

long_name-IsLine : IsLine long_name
long_name-IsLine = (
  refl,
  (
    refl,
    (
      refl,
      (
        refl,
        (
          refl,
          (
            refl,
            (
              refl,
              (
                refl,
                (
                  refl,
                  (
                    refl,
                    (
                      refl,
                      (refl, (refl, (refl, (refl, (refl, (refl, (refl, (refl, (refl, tt))))))))),
                    ),
                  ),
                ),
              ),
            ),
          ),
        ),
      ),
    ),
  ),
)

handle-overread_example :
    (handle sample sample_env 1 client (register_command ++ (long_name ++ 0 ∷ [])) registered_t
      ≡ overread)
    × (handle sample sample_env 1 client (subscribe_command ++ (long_name ++ 0 ∷ [])) registered_t
        ≡ overread)
    × (handle sample sample_env 1 client (flush_command ++ (long_name ++ 0 ∷ [])) registered_t
        ≡ overread)
handle-overread_example =
    handle-overread sample sample_env 1 client registered_t long_name (0 ∷ []) long_name-IsLine refl

packed_pack_example :
    (packed_ip (pack (swap32 0x0200000a) (swap16 0x8813)) ≡ 0x0200000a)
    × (packed_port (pack (swap32 0x0200000a) (swap16 0x8813)) ≡ 0x8813)
    × (pack (swap32 0x0200000a) (swap16 0x8813) < 2 ^ 64)
packed_pack_example = packed_pack 0x0200000a 0x8813 (omega arith) (omega arith)
