-- ===== src/Xdp/Publish.antt =====
-- What a PUBLISH to the broker is, described by its bytes.
use bpf_broker.Prelude.{◌+◌, ◌≤◌, ◌≡◌, ◌↔◌, sym, ◌∙◌, true, false, arith, take, drop, some}
use bpf_broker.Frame.{Frame, load16, swap16, udp_dest, payload_base}
use bpf_broker.Parse.{Key, parse_udp_packet, starts_with, extract_topic_id, publish}
use bpf_broker.Parse.Headers.{IsUdp, parse_udp_packet_iff}
use bpf_broker.Parse.Prefix.{starts_with_iff}
use bpf_broker.Parse.Topic.{topic_spec, extract_topic_id-eq-topic_spec}
use bpf_broker.Xdp.{other_port}

-- A UDP datagram over IPv4 to one of the broker's sixteen ports, whose payload begins with the
-- command.
pub record IsCommand (f : Frame) : Type 0 where
  pub udp : IsUdp 43 f
  pub port_min : 49152 ≤ swap16 (load16 f udp_dest)
  pub port_max : swap16 (load16 f udp_dest) ≤ 49167
  pub command : take 8 (drop payload_base f) ≡ publish

-- Such a command whose next bytes name the topic of `key`.
pub record IsPublish (f : Frame) (key : Key) : Type 0 where
  pub is_command : IsCommand f
  pub topic : topic_spec (drop (payload_base + 8) f) ≡ some key

port_in_range :
    (f : Frame)
    → (other_port f ≡ false)
      ↔ ((49152 ≤ swap16 (load16 f udp_dest)) × (swap16 (load16 f udp_dest) ≤ 49167))
port_in_range f = ground arith

-- The three guards of the programs together decide whether a frame is a command.
pub guards-IsCommand :
    (f : Frame)
    → parse_udp_packet f ≡ true
    → other_port f ≡ false
    → starts_with f payload_base publish ≡ true
    → IsCommand f
guards-IsCommand f p o c = record {
  udp = (parse_udp_packet_iff f).0 p;
  port_min = ((port_in_range f).0 o).0;
  port_max = ((port_in_range f).0 o).1;
  command = (starts_with_iff publish f payload_base).0 c;
}

module _ {f : Frame} (c : IsCommand f) where
  pub parse_udp_packet_of_command : parse_udp_packet f ≡ true
  parse_udp_packet_of_command = (parse_udp_packet_iff f).1 c.udp

  pub other_port_of_command : other_port f ≡ false
  other_port_of_command = (port_in_range f).1 (c.port_min, c.port_max)

  pub starts_with_of_command : starts_with f payload_base publish ≡ true
  starts_with_of_command = (starts_with_iff publish f payload_base).1 c.command

-- The topic is what extract_topic_id finds.
pub extract_topic_id-IsPublish :
    (f : Frame) (key : Key)
    → IsCommand f
    → extract_topic_id f (payload_base + 8) ≡ some key
    → IsPublish f key
extract_topic_id-IsPublish f key c e = record {
  is_command = c;
  topic = sym (extract_topic_id-eq-topic_spec f (payload_base + 8)) ∙ e;
}

pub extract_topic_id_of_publish :
    {f : Frame} {key : Key} → IsPublish f key → extract_topic_id f (payload_base + 8) ≡ some key
extract_topic_id_of_publish {f} p = extract_topic_id-eq-topic_spec f (payload_base + 8) ∙ p.topic

-- A frame names one topic at most.
pub IsPublish-unique : (f : Frame) (k j : Key) → IsPublish f k → IsPublish f j → k ≡ j
IsPublish-unique f k j a b = cc (a.topic, b.topic)
