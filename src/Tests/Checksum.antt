-- ===== src/Tests/Checksum.antt =====
-- The checksum and the parsing at the sample frames.
use bpf_broker.Prelude.{◌+◌, ◌-◌, ◌*◌, ◌/◌, ◌%◌, ◌≡◌, ◌↔◌, refl, arith}
use bpf_broker.Frame.{load8, load16, store16, ip_base, ip_check, udp_base}
use bpf_broker.Checksum.{ip_sum, compute_ip_checksum, udp_checksum}
use bpf_broker.Checksum.Sum.{word_sum, Verifies}
use bpf_broker.Checksum.Ip.{compute_ip_checksum-Verifies}
use bpf_broker.Checksum.Received.{datagram_length, received_sum}
use bpf_broker.Checksum.Udp.{with_checksum, udp_checksum-even, udp_checksum-odd}
use bpf_broker.Tests.Samples.{publish_frame, odd_frame, publish_frame-IsBytes, odd_frame-IsBytes}

sample_ip_checksum : compute_ip_checksum publish_frame ip_base ≡ 0xc466
unfolding compute_ip_checksum ip_sum load16 load8
sample_ip_checksum = refl

pub publish_length : datagram_length publish_frame ≡ 18
unfolding datagram_length load16 load8
publish_length = refl

odd_length : datagram_length odd_frame ≡ 19
unfolding datagram_length load16 load8
odd_length = refl

compute_ip_checksum-Verifies_example : Verifies (
    word_sum
      (store16
        (store16 publish_frame ip_check 0)
        ip_check
        (compute_ip_checksum (store16 publish_frame ip_check 0) ip_base))
      ip_base
      10)
compute_ip_checksum-Verifies_example =
    compute_ip_checksum-Verifies publish_frame publish_frame-IsBytes (omega arith)

udp_checksum-even_example :
    Verifies (received_sum (with_checksum (udp_checksum 128) publish_frame)) ↔ (
      word_sum publish_frame (udp_base + 2 * 128) (datagram_length publish_frame / 2 - 128) % 65535
      ≡ 0)
udp_checksum-even_example =
    udp_checksum-even 128 publish_frame (omega arith) (omega arith) publish_frame-IsBytes
      (omega (arith, publish_length)) (omega (arith, publish_length))
      (omega (arith, publish_length))

udp_checksum-odd_example :
    Verifies (received_sum (with_checksum (udp_checksum 128) odd_frame))
    ↔ (load8 odd_frame (udp_base + (datagram_length odd_frame - 1)) ≡ 0)
udp_checksum-odd_example =
    udp_checksum-odd 128 odd_frame (omega arith) odd_frame-IsBytes (omega (arith, odd_length))
      (omega (arith, odd_length)) (omega (arith, odd_length)) (omega (arith, odd_length))
