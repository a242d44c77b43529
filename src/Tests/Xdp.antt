-- ===== src/Tests/Xdp.antt =====
-- The XDP program at the sample frames.
use bpf_broker.Prelude.{ℕ, ◌+◌, ◌≡◌, ◌≢◌, ◌↔◌, refl, arith, some, none, [], ◌∷◌}
use bpf_broker.Frame.{load8, load16, payload_base}
use bpf_broker.Checksum.{udp_checksum, compute_udp_checksum}
use bpf_broker.Checksum.Sum.{Verifies}
use bpf_broker.Checksum.Received.{received_sum}
use bpf_broker.Checksum.Udp.{with_checksum}
use bpf_broker.Parse.{Key, parse_udp_packet, starts_with, extract_topic_id}
use bpf_broker.Parse.Headers.{IsUdp}
use bpf_broker.Parse.Topic.{name_of, key_of, topic_spec, extract_topic_id-eq-topic_spec}
use bpf_broker.Rewrite.{readdress}
use bpf_broker.Rewrite.Reply.{IsForwarded, readdress-udp_valid}
use bpf_broker.Xdp.{tx, drop, pass, xdp_broker, Tables}
use bpf_broker.Xdp.Publish.{IsPublish}
use bpf_broker.Xdp.Verdict.{
  xdp_broker-tx_iff, xdp_broker-drop_iff, xdp_broker-counts, xdp_broker-forwards,
}
use bpf_broker.Tests.Samples.{
  publish_frame, publish_frame-IsBytes, key_t, packed_subscriber, one_subscriber, fresh,
}
use bpf_broker.Tests.Checksum.{publish_length}

publish_frame-IsUdp : IsUdp 43 publish_frame
unfolding load8 load16
publish_frame-IsUdp = record { room = omega arith; ethertype = refl; protocol = refl }

pub publish_frame-IsPublish : IsPublish publish_frame key_t
unfolding load8 load16 topic_spec name_of key_of
publish_frame-IsPublish = record {
  is_command = record {
    udp = publish_frame-IsUdp;
    port_min = omega arith;
    port_max = omega arith;
    command = refl;
  };
  topic = refl;
}

abbrev no_subscriber : Tables
no_subscriber = record { topic_sub_cnt = λ k. none; topic_first_sub = λ k. none }

-- A topic without a count is left to the stack.
passed : (xdp_broker no_subscriber fresh publish_frame).0 ≡ pass
unfolding xdp_broker parse_udp_packet starts_with extract_topic_id load8 load16
passed = refl

passed_not_tx : (xdp_broker no_subscriber fresh publish_frame).0 ≢ tx
passed_not_tx e = cc passed

xdp_broker-tx_iff_example : ((xdp_broker one_subscriber fresh publish_frame).0 ≡ tx) ↔ (
    (key : Key) × (packed : ℕ) × IsPublish publish_frame key
    × (one_subscriber.topic_sub_cnt key ≡ some 1)
    × (one_subscriber.topic_first_sub key ≡ some packed))
xdp_broker-tx_iff_example = xdp_broker-tx_iff one_subscriber fresh publish_frame

xdp_broker-drop_iff_example : ((xdp_broker one_subscriber fresh publish_frame).0 ≡ drop) ↔ (
    (key : Key) × IsPublish publish_frame key
    × (one_subscriber.topic_sub_cnt key ≡ some 1)
    × (one_subscriber.topic_first_sub key ≡ none))
xdp_broker-drop_iff_example = xdp_broker-drop_iff one_subscriber fresh publish_frame

xdp_broker-counts_example : (xdp_broker one_subscriber fresh publish_frame).2.pub_counter ≡ some 1
xdp_broker-counts_example =
    xdp_broker-counts one_subscriber fresh publish_frame publish_frame-IsPublish.is_command

xdp_broker-forwards_example :
    IsForwarded publish_frame packed_subscriber (xdp_broker one_subscriber fresh publish_frame).1
    × (with_checksum compute_udp_checksum (xdp_broker one_subscriber fresh publish_frame).1
        ≡ (xdp_broker one_subscriber fresh publish_frame).1)
    × ((xdp_broker one_subscriber fresh publish_frame).2.clone_counter ≡ some 1)
xdp_broker-forwards_example =
    xdp_broker-forwards one_subscriber fresh publish_frame key_t packed_subscriber
      publish_frame-IsBytes (omega arith) publish_frame-IsPublish refl refl

readdress-udp_valid_example :
    Verifies (received_sum (readdress (udp_checksum 128) publish_frame packed_subscriber))
readdress-udp_valid_example =
    readdress-udp_valid 128 publish_frame packed_subscriber (omega arith) (omega arith)
      publish_frame-IsBytes (omega (arith, publish_length)) (omega (arith, publish_length))
      (omega (arith, publish_length)) (omega (arith, publish_length))

extract_topic_id-eq-topic_spec_example :
    extract_topic_id publish_frame (payload_base + 8) ≡ topic_spec (b't' ∷ 10 ∷ [])
extract_topic_id-eq-topic_spec_example =
    extract_topic_id-eq-topic_spec publish_frame (payload_base + 8)
