-- ===== src/Parse/Headers.antt =====
-- Which frames the header checks accept.
use bpf_broker.Prelude.{ℕ, ◌≤◌, ◌≡◌, ◌↔◌, true, arith, length}
use bpf_broker.Frame.{Frame, load8, load16, eth_proto, ip_protocol}
use bpf_broker.Parse.{parse_udp_packet, refresh_headers}

-- An Ethernet frame of type IPv4 (0x0800 in network order) and protocol UDP, at least `size` long.
pub record IsUdp (size : ℕ) (f : Frame) : Type 0 where
  pub room : size ≤ length f
  pub ethertype : load16 f eth_proto ≡ 8
  pub protocol : load8 f ip_protocol ≡ 17

-- refresh_headers accepts exactly the IPv4 UDP frames that hold all three headers.
pub refresh_headers_iff : (f : Frame) → (refresh_headers f ≡ true) ↔ IsUdp 42 f
unfolding refresh_headers
refresh_headers_iff f = ground arith

-- For every frame: parse_udp_packet returns 0 exactly if the frame holds the Ethernet, IP and UDP
-- headers and one byte of payload, its EtherType is IPv4 and its protocol is UDP.
pub parse_udp_packet_iff : (f : Frame) → (parse_udp_packet f ≡ true) ↔ IsUdp 43 f
unfolding parse_udp_packet
parse_udp_packet_iff f = ground arith
