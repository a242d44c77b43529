-- ===== src/Tests/Forwards.antt =====
-- The sample frame with valid checksums in tc_ingress_broker, with helpers that work.
use bpf_broker.Prelude.{
  ℕ, ◌+◌, ◌-◌, ◌*◌, ◌%◌, ◌^◌, ◌==◌, if◌then◌else◌, ◌≡◌, refl, true, some, none, Option, All, List,
  [], ◌∷◌, ◌++◌, length, arith,
}
use native.Mathlib.Decide.{ℕ_discrete, dec_lt}
use bpf_broker.Frame.{Frame, load8, load16, store16, IsBytes, ip_base}
use bpf_broker.Frame.Access.{IsBytes-of_All}
use bpf_broker.Frame.Words.{halves}
use bpf_broker.Checksum.Sum.{word_sum, Verifies}
use bpf_broker.Checksum.Received.{pseudo_total, datagram_length, received_sum}
use bpf_broker.Parse.{Key, parse_udp_packet, starts_with, extract_topic_id}
use bpf_broker.Parse.Topic.{topic_spec, name_of, key_of}
use bpf_broker.Parse.Headers.{IsUdp}
use bpf_broker.Rewrite.Reply.{IsForwarded}
use bpf_broker.Maps.Assoc.{assoc_map, update, update_with}
use bpf_broker.Xdp.{tx, xdp_broker}
use bpf_broker.Xdp.Publish.{IsPublish}
use bpf_broker.Tc.{Helpers, Skb, pseudo_hdr, act_shot, tc_ingress_broker}
use bpf_broker.Tc.Clones.{Works}
use bpf_broker.Tc.Serve.{Pairwise}
use bpf_broker.Tc.Forwards.{tc_ingress_broker-forwards, tc_ingress_broker-udp_valid}
use bpf_broker.Proto.Text.{strlen, padded, pack, strncmp, printed, read_topic, trim, swap32}
use bpf_broker.Proto.Service.{
  add_topic, create_topic, add_subscriber, insert_subscriber, count_subscriber, store_first,
}
use bpf_broker.Proto.Service.Invariant.{Key-discrete}
use bpf_broker.Proto.Handler.{receive, handle}
use bpf_broker.Broker.{tables_of, topics_of}
use bpf_broker.Broker.Paths.{AgreesOutsideChecksums, xdp_broker-tc_ingress_broker}
use bpf_broker.Tests.Samples.{eth_header, publish_t, key_t, packed_subscriber, fresh}
use bpf_broker.Tests.Service.{sample, subscribed_t}
use bpf_broker.Tests.Broker.{second_buffer, reached_second}

-- The checksums are 0x66c4 and 0x801f.
abbrev valid_frame : Frame
valid_frame =
    eth_header
    ++ ((0x45 ∷ 0 ∷ 0 ∷ 38 ∷ 0 ∷ 1 ∷ 0 ∷ 0 ∷ 64 ∷ 17 ∷ 0x66 ∷ 0xc4 ∷ 10 ∷ 0 ∷ 0 ∷ 2 ∷ 10 ∷ 0 ∷ 0 ∷ 1
          ∷ [])
        ++ ((0x13 ∷ 0x88 ∷ 0xc0 ∷ 0 ∷ 0 ∷ 18 ∷ 0x80 ∷ 0x1f ∷ []) ++ publish_t))

pub valid_frame-IsBytes : IsBytes valid_frame
valid_frame-IsBytes = IsBytes-of_All valid_frame (omega arith)

valid_frame-IsUdp : IsUdp 43 valid_frame
unfolding load8 load16
valid_frame-IsUdp = record { room = omega arith; ethertype = refl; protocol = refl }

pub valid_frame-IsPublish : IsPublish valid_frame key_t
unfolding load8 load16 topic_spec name_of key_of
valid_frame-IsPublish = record {
  is_command = record {
    udp = valid_frame-IsUdp;
    port_min = omega arith;
    port_max = omega arith;
    command = refl;
  };
  topic = refl;
}

pub valid_header : Verifies (word_sum valid_frame ip_base 10)
unfolding word_sum load16 load8
valid_header = (omega arith, refl)

valid_length : datagram_length valid_frame ≡ 18
unfolding datagram_length load16 load8
valid_length = refl

valid_datagram : Verifies (received_sum valid_frame)
unfolding received_sum pseudo_total datagram_length word_sum load16 load8
valid_datagram = (omega arith, refl)

-- RFC 1624 as a remainder.
abbrev replaced_checksum : ℕ → ℕ → ℕ → ℕ
replaced_checksum check from to = (check + halves from + (65535 - halves to % 65535)) % 65535

-- The update of a field of `size` bytes.
abbrev replaced : ℕ → Frame → ℕ → ℕ → ℕ → Frame
replaced size f offset from to =
    store16 f offset
      (replaced_checksum (load16 f offset) (from % 2 ^ (8 * size)) (to % 2 ^ (8 * size)))

-- Any other flags are an error.
abbrev pub working : Helpers
working = record {
  skb_pull_data = λ f. some f;
  l3_csum_replace =
      λ f offset from to flags. if flags == 4 then some (replaced 4 f offset from to) else none;
  l4_csum_replace = λ f offset from to flags.
      if flags == 4 + pseudo_hdr
      then some (replaced 4 f offset from to)
      else if flags == 2 + pseudo_hdr
      then some (replaced 2 f offset from to)
      else none;
  clone_redirect = λ f. true;
  queue_room = true;
}

pub working-Works : Works working
working-Works = record {
  l3_address = λ f o from to b room small_from small_to. (
    replaced 4 f o from to,
    refl,
    record {
      check = replaced_checksum (load16 f o) (from % 2 ^ (8 * 4)) (to % 2 ^ (8 * 4));
      fits = omega arith;
      stored = refl;
      sum = omega arith;
    },
  );
  l4_address = λ f o from to b room small_from small_to. (
    replaced 4 f o from to,
    refl,
    record {
      check = replaced_checksum (load16 f o) (from % 2 ^ (8 * 4)) (to % 2 ^ (8 * 4));
      fits = omega arith;
      stored = refl;
      sum = omega arith;
    },
  );
  l4_port = λ f o from to b room small_from small_to. (
    replaced 2 f o from to,
    refl,
    record {
      check = replaced_checksum (load16 f o) (from % 2 ^ (8 * 2)) (to % 2 ^ (8 * 2));
      fits = omega arith;
      stored = refl;
      sum = omega arith;
    },
  );
  redirects = λ f. refl;
}

abbrev pub valid_skb : Skb
valid_skb = record {
  packet = valid_frame;
  clones = [];
  queue_count = some 0;
  pub_counter = some 0;
  clone_counter = some 0;
}

abbrev keys : List ℕ
keys = packed_subscriber ∷ (packed_subscriber + 65536) ∷ []

abbrev topics : Key → Option (List ℕ)
topics key = some keys

tc_ingress_broker-forwards_example :
    ((tc_ingress_broker working topics valid_skb).0 ≡ act_shot)
    × ((l : List Frame) × ((tc_ingress_broker working topics valid_skb).1.clones ≡ [] ++ l)
        × Pairwise (λ packed g. IsBytes g × IsForwarded valid_frame packed g) keys l)
tc_ingress_broker-forwards_example =
    tc_ingress_broker-forwards working topics valid_skb valid_frame key_t keys working-Works
      valid_frame-IsBytes refl valid_frame-IsPublish refl (omega arith, (omega arith, tt))
      valid_header

tc_ingress_broker-udp_valid_example :
    (l : List Frame) × ((tc_ingress_broker working topics valid_skb).1.clones ≡ [] ++ l)
    × (length l ≡ 2)
    × All (λ g. Verifies (received_sum g)) l
tc_ingress_broker-udp_valid_example =
    tc_ingress_broker-udp_valid working topics valid_skb valid_frame key_t keys working-Works
      valid_frame-IsBytes refl valid_frame-IsPublish refl (omega arith, (omega arith, tt))
      (omega (arith, valid_length)) valid_datagram

valid_transmitted : (xdp_broker (tables_of sample subscribed_t) fresh valid_frame).0 ≡ tx
unfolding handle receive strncmp printed read_topic trim pack swap32 add_topic create_topic
    add_subscriber insert_subscriber count_subscriber store_first strlen padded assoc_map update
    update_with dec_lt Key-discrete ℕ_discrete xdp_broker parse_udp_packet starts_with
    extract_topic_id load8 load16
valid_transmitted = refl

xdp_broker-tc_ingress_broker_example :
    (g : Frame) × ((tc_ingress_broker working (topics_of sample subscribed_t) valid_skb).0
      ≡ act_shot)
    × ((tc_ingress_broker working (topics_of sample subscribed_t) valid_skb).1.clones
        ≡ [] ++ g ∷ [])
    × AgreesOutsideChecksums g (xdp_broker (tables_of sample subscribed_t) fresh valid_frame).1
xdp_broker-tc_ingress_broker_example =
    xdp_broker-tc_ingress_broker sample second_buffer subscribed_t fresh valid_frame working
      valid_skb reached_second working-Works valid_frame-IsBytes refl valid_header valid_transmitted
