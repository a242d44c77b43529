-- ===== src/Tests/Samples.antt =====
-- A PUBLISH of topic "t" to 10.0.0.1:49152, and the maps of a broker that knows one subscriber.
use bpf_broker.Prelude.{ℕ, [], ◌∷◌, ◌++◌, ◌*◌, ◌+◌, ◌^◌, replicate, some, arith}
use bpf_broker.Frame.{Frame, IsBytes}
use bpf_broker.Frame.Access.{IsBytes-of_All}
use bpf_broker.Parse.{Key}
use bpf_broker.Xdp.{Tables, Counters}

abbrev pub eth_header : Frame
eth_header = 2 ∷ 0 ∷ 0 ∷ 0 ∷ 0 ∷ 1 ∷ 2 ∷ 0 ∷ 0 ∷ 0 ∷ 0 ∷ 2 ∷ 8 ∷ 0 ∷ []

abbrev pub ip_header : Frame
ip_header =
    0x45 ∷ 0 ∷ 0 ∷ 38 ∷ 0 ∷ 1 ∷ 0 ∷ 0 ∷ 64 ∷ 17 ∷ 0 ∷ 0 ∷ 10 ∷ 0 ∷ 0 ∷ 2 ∷ 10 ∷ 0 ∷ 0 ∷ 1 ∷ []

-- Source port 5000, destination port 49152, and the datagram's length.
abbrev pub udp_header : ℕ → Frame
udp_header len = 0x13 ∷ 0x88 ∷ 0xc0 ∷ 0 ∷ 0 ∷ len ∷ 0 ∷ 0 ∷ []

-- "PUBLISH t\n"
abbrev pub publish_t : Frame
publish_t = b'P' ∷ b'U' ∷ b'B' ∷ b'L' ∷ b'I' ∷ b'S' ∷ b'H' ∷ b' ' ∷ b't' ∷ 10 ∷ []

abbrev pub publish_frame : Frame
publish_frame = eth_header ++ (ip_header ++ (udp_header 18 ++ publish_t))

-- The same with one more byte of message: an odd length.
abbrev pub odd_frame : Frame
odd_frame = eth_header ++ (ip_header ++ (udp_header 19 ++ (publish_t ++ b'x' ∷ [])))

pub publish_frame-IsBytes : IsBytes publish_frame
publish_frame-IsBytes = IsBytes-of_All publish_frame (omega arith)

pub odd_frame-IsBytes : IsBytes odd_frame
odd_frame-IsBytes = IsBytes-of_All odd_frame (omega arith)

abbrev pub key_t : Key
key_t = b't' ∷ replicate 19 0

-- 10.0.0.2:5000 as `add_subscriber` packs it.
abbrev pub packed_subscriber : ℕ
packed_subscriber = 0x0200000a * 2 ^ 32 + 0x8813 * 2 ^ 16

abbrev pub one_subscriber : Tables
one_subscriber = record {
  topic_sub_cnt = λ k. some 1;
  topic_first_sub = λ k. some packed_subscriber;
}

abbrev pub fresh : Counters
fresh = record { pub_counter = some 0; clone_counter = some 0 }
