-- ===== src/Rewrite/Reply.antt =====
-- The frame that leaves for a subscriber, field by field, and its two checksums.
use bpf_broker.Prelude.{
  ℕ, ◌+◌, ◌-◌, ◌*◌, ◌/◌, ◌%◌, ◌^◌, ◌≤◌, ◌<◌, ◌≡◌, ap, ◌∙◌, ◌⊎◌, inl, inr, arith, length,
}
use bpf_broker.Frame.{
  Frame, load8, load16, load32, IsBytes, eth_dest, eth_source, ip_base, ip_saddr, ip_daddr,
  udp_base, udp_source, udp_dest, swap16,
}
use bpf_broker.Frame.Access.{load16_ext, load32_ext}
use bpf_broker.Checksum.{udp_checksum}
use bpf_broker.Checksum.Sum.{word_sum, Verifies, word_sum_ext, word_sum-zero}
use bpf_broker.Checksum.Received.{datagram_length, received_sum}
use bpf_broker.Checksum.Udp.{udp_checksum-even}
use bpf_broker.Rewrite.{
  read_bytes, swap_macs, readdress_ip, readdress_udp, readdress, packed_ip, packed_port,
}
use bpf_broker.Rewrite.Mac.{
  length-swap_macs, swap_macs-IsBytes, load8-swap_macs, read_bytes_ext, read_bytes-swap_macs_dest,
  read_bytes-swap_macs_source,
}
use bpf_broker.Rewrite.Ip.{
  length-readdress_ip, readdress_ip-IsBytes, load8-readdress_ip, readdress_ip-Verifies,
  load32-readdress_ip_saddr, load32-readdress_ip_daddr,
}
use bpf_broker.Rewrite.Udp.{
  ported, readdress_udp-with_checksum, length-ported, ported-IsBytes, load8-ported,
  length-readdress_udp, readdress_udp-IsBytes, load8-readdress_udp, load16-readdress_udp_source,
  load16-readdress_udp_dest,
}

-- `out` carries the datagram of `f` from the broker to the subscriber `packed`.
pub record IsForwarded (f : Frame) (packed : ℕ) (out : Frame) : Type 0 where
  pub same_length : length out ≡ length f
  pub dest_mac : read_bytes out 6 eth_dest ≡ read_bytes f 6 eth_source
  pub source_mac : read_bytes out 6 eth_source ≡ read_bytes f 6 eth_dest
  pub saddr : load32 out ip_saddr ≡ load32 f ip_daddr
  pub daddr : load32 out ip_daddr ≡ packed_ip packed
  pub source_port : load16 out udp_source ≡ load16 f udp_dest
  pub dest_port : load16 out udp_dest ≡ packed_port packed
  -- The EtherType and the IP header up to the protocol, the UDP length, and the payload.
  pub kept :
      (i : ℕ) → ((12 ≤ i) × (i < 24)) ⊎ ((38 ≤ i) × (i < 40)) ⊎ (42 ≤ i) → load8 out i ≡ load8 f i
  pub ip_valid : Verifies (word_sum out ip_base 10)

module _ (checksum : Frame → ℕ → ℕ → ℕ) (f : Frame) (packed : ℕ) where
  abbrev f1 : Frame
  f1 = swap_macs f

  abbrev f2 : Frame
  f2 = readdress_ip f1 (packed_ip packed)

  abbrev f3 : Frame
  f3 = readdress_udp checksum f2 (packed_port packed)

  length-f2 : length f2 ≡ length f
  length-f2 = length-readdress_ip f1 (packed_ip packed) ∙ length-swap_macs f

  f2-IsBytes : IsBytes f → IsBytes f2
  f2-IsBytes b = readdress_ip-IsBytes f1 (packed_ip packed) (swap_macs-IsBytes f b)

  pub length-readdress : length (readdress checksum f packed) ≡ length f
  unfolding readdress
  length-readdress = length-readdress_udp checksum f2 (packed_port packed) ∙ length-f2

  pub readdress-IsBytes : IsBytes f → IsBytes (readdress checksum f packed)
  unfolding readdress
  readdress-IsBytes b = readdress_udp-IsBytes checksum f2 (packed_port packed) (f2-IsBytes b)

  low_bytes : (i : ℕ) → i < 24 → load8 f3 i ≡ load8 f1 i
  low_bytes i h =
      load8-readdress_udp checksum f2 (packed_port packed) i (inl (omega arith))
      ∙ load8-readdress_ip f1 (packed_ip packed) i (inl h)

  ip_bytes : (i : ℕ) → i < 34 → load8 f3 i ≡ load8 f2 i
  ip_bytes i h = load8-readdress_udp checksum f2 (packed_port packed) i (inl h)

  high_bytes : (i : ℕ) → 34 ≤ i → load8 f2 i ≡ load8 f i
  high_bytes i h =
      load8-readdress_ip f1 (packed_ip packed) i (inr h) ∙ load8-swap_macs f i (omega arith)

  kept_bytes :
      (i : ℕ) → ((12 ≤ i) × (i < 24)) ⊎ ((38 ≤ i) × (i < 40)) ⊎ (42 ≤ i) → load8 f3 i ≡ load8 f i
  kept_bytes i h =
      load8-readdress_udp checksum f2 (packed_port packed) i (ground arith)
      ∙ load8-readdress_ip f1 (packed_ip packed) i (ground arith)
      ∙ load8-swap_macs f i (ground arith)

  -- The rewritten frame is the old datagram, from the broker to the subscriber, under a valid
  -- header.
  pub readdress-IsForwarded :
      IsBytes f
      → 42 ≤ length f
      → packed < 2 ^ 64
      → IsForwarded f packed (readdress checksum f packed)
  unfolding readdress
  readdress-IsForwarded b room fits = record {
    same_length = length-readdress_udp checksum f2 (packed_port packed) ∙ length-f2;
    dest_mac =
        read_bytes_ext f3 f1 6 eth_dest (λ i p q. low_bytes i (omega arith))
        ∙ read_bytes-swap_macs_dest f b (omega arith);
    source_mac =
        read_bytes_ext f3 f1 6 eth_source (λ i p q. low_bytes i (omega arith))
        ∙ read_bytes-swap_macs_source f b (omega arith);
    saddr =
        load32_ext f3 f2 ip_saddr (λ i p q. ip_bytes i (omega arith))
        ∙ load32-readdress_ip_saddr f1 (packed_ip packed) (swap_macs-IsBytes f b)
            (omega (arith, length-swap_macs f))
        ∙ load32_ext f1 f ip_daddr (λ i p q. load8-swap_macs f i (omega arith));
    daddr =
        load32_ext f3 f2 ip_daddr (λ i p q. ip_bytes i (omega arith))
        ∙ load32-readdress_ip_daddr f1 (packed_ip packed) (swap_macs-IsBytes f b)
            (omega (arith, length-swap_macs f)) (omega arith);
    source_port =
        load16-readdress_udp_source checksum f2 (packed_port packed) (f2-IsBytes b)
          (omega (arith, length-f2))
        ∙ load16_ext f2 f udp_dest (high_bytes udp_dest (omega arith))
            (high_bytes (udp_dest + 1) (omega arith));
    dest_port =
        load16-readdress_udp_dest checksum f2 (packed_port packed) (f2-IsBytes b)
          (omega (arith, length-f2)) (omega arith);
    kept = kept_bytes;
    ip_valid = rw (word_sum_ext f3 f2 10 ip_base (λ i p q. ip_bytes i (omega arith))) (
        readdress_ip-Verifies f1 (packed_ip packed) (swap_macs-IsBytes f b)
          (omega (arith, length-swap_macs f)));
  }

-- The frame that readdress_udp computes the checksum of.
module _ (checksum : Frame → ℕ → ℕ → ℕ) (f : Frame) (packed : ℕ) where
  abbrev before_checksum : Frame
  before_checksum = ported checksum (f2 checksum f packed) (packed_port packed)

  before_checksum-IsBytes : IsBytes f → IsBytes before_checksum
  before_checksum-IsBytes b =
      ported-IsBytes checksum (f2 checksum f packed) (packed_port packed)
        (f2-IsBytes checksum f packed b)

  length-before_checksum : length before_checksum ≡ length f
  length-before_checksum =
      length-ported checksum (f2 checksum f packed) (packed_port packed)
      ∙ length-f2 checksum f packed

  length_byte : (i : ℕ) → 38 ≤ i → load8 before_checksum i ≡ load8 f i
  length_byte i h =
      load8-ported checksum (f2 checksum f packed) (packed_port packed) i (inr h)
      ∙ high_bytes checksum f packed i (omega arith)

  datagram_length-before_checksum : datagram_length before_checksum ≡ datagram_length f
  unfolding datagram_length
  datagram_length-before_checksum =
      ap (λ v. swap16 v)
        (load16_ext before_checksum f (udp_base + 4) (length_byte 38 (omega arith))
          (length_byte 39 (omega arith)))

-- A frame of bytes that holds a datagram of even length, of at least 8 and at most twice the
-- rounds, which are 4 to 1024, has a UDP checksum that verifies at the receiver once it is
-- readdressed.
pub readdress-udp_valid :
    (rounds : ℕ) (f : Frame) (packed : ℕ)
    → 4 ≤ rounds
    → rounds ≤ 1024
    → IsBytes f
    → 8 ≤ datagram_length f
    → datagram_length f ≤ 2 * rounds
    → udp_base + datagram_length f ≤ length f
    → datagram_length f % 2 ≡ 0
    → Verifies (received_sum (readdress (udp_checksum rounds) f packed))
unfolding readdress
readdress-udp_valid rounds f packed four few b long covered room even =
    let g = before_checksum (udp_checksum rounds) f packed in
    let same = datagram_length-before_checksum (udp_checksum rounds) f packed in
    rw readdress_udp-with_checksum (
      (udp_checksum-even rounds g four few
          (before_checksum-IsBytes (udp_checksum rounds) f packed b) (omega (arith, same))
          (omega (arith, same, length-before_checksum (udp_checksum rounds) f packed))
          (rw same even)).1
        (let e : datagram_length g / 2 - rounds ≡ 0 = omega (arith, same) in rw (e, word_sum-zero)))
