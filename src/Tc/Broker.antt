-- ===== src/Tc/Broker.antt =====
-- A packet on its way from the broker to some subscriber: what stays as it is while the fields of
-- the destination change.
use bpf_broker.Prelude.{ℕ, ◌%◌, ◌≤◌, ◌<◌, ◌≡◌, ◌∙◌, ◌⊎◌, inl, inr, true, arith, length}
use bpf_broker.Frame.{
  Frame, load8, load16, load32, IsBytes, eth_dest, eth_source, eth_proto, ip_base, ip_protocol,
  ip_saddr, ip_daddr, udp_source, udp_dest,
}
use bpf_broker.Frame.Access.{load16_ext, load32_ext}
use bpf_broker.Checksum.Sum.{word_sum, Verifies}
use bpf_broker.Checksum.Received.{datagram_length, received_sum, received_sum-ge}
use bpf_broker.Parse.{refresh_headers}
use bpf_broker.Parse.Headers.{IsUdp, refresh_headers_iff}
use bpf_broker.Rewrite.{read_bytes, packed_ip, packed_port}
use bpf_broker.Rewrite.Mac.{read_bytes_ext}
use bpf_broker.Rewrite.Reply.{IsForwarded}
use bpf_broker.Tc.Fields.{IsChanged}

-- `g` carries the datagram of `f` from the broker, wherever to, and has the sums of `f`.
pub record IsFromBroker (f g : Frame) : Type 0 where
  pub bytes : IsBytes g
  pub same_length : length g ≡ length f
  pub dest_mac : read_bytes g 6 eth_dest ≡ read_bytes f 6 eth_source
  pub source_mac : read_bytes g 6 eth_source ≡ read_bytes f 6 eth_dest
  pub saddr : load32 g ip_saddr ≡ load32 f ip_daddr
  pub source_port : load16 g udp_source ≡ load16 f udp_dest
  pub kept :
      (i : ℕ) → ((12 ≤ i) × (i < 24)) ⊎ ((38 ≤ i) × (i < 40)) ⊎ (42 ≤ i) → load8 g i ≡ load8 f i
  pub ip_sum : word_sum g ip_base 10 % 65535 ≡ word_sum f ip_base 10 % 65535
  pub udp_length : datagram_length g ≡ datagram_length f
  pub udp_sum : 8 ≤ datagram_length f → received_sum g % 65535 ≡ received_sum f % 65535

-- The headers are found as before.
pub refresh_headers_kept :
    (f g : Frame)
    → length g ≡ length f
    → ((i : ℕ) → (12 ≤ i) × (i < 24) → load8 g i ≡ load8 f i)
    → IsUdp 42 f
    → refresh_headers g ≡ true
refresh_headers_kept f g same kept u = (refresh_headers_iff g).1 (record {
  room = omega (arith, u.room);
  ethertype =
      load16_ext g f eth_proto (kept 12 (omega arith)) (kept 13 (omega arith)) ∙ u.ethertype;
  protocol = kept ip_protocol (omega arith) ∙ u.protocol;
})

-- A change in the destination's fields.
module _ (f g k : Frame) (o w : ℕ) (dest : ((o ≡ ip_daddr) × (w ≡ 4)) ⊎ ((o ≡ udp_dest) × (w ≡ 2)))
    (c : IsChanged g o w k) (p : IsFromBroker f g) where
  same :
      (i : ℕ)
      → (i < 24) ⊎ ((26 ≤ i) × (i < 30)) ⊎ ((34 ≤ i) × (i < 36)) ⊎ ((38 ≤ i) × (i < 40)) ⊎ (42 ≤ i)
      → load8 k i ≡ load8 g i
  same i h = c.others i (ground arith)

  pub changed-IsFromBroker : IsFromBroker f k
  changed-IsFromBroker = record {
    bytes = c.bytes;
    same_length = c.same_length ∙ p.same_length;
    dest_mac = read_bytes_ext k g 6 eth_dest (λ i a b. same i (inl (omega arith))) ∙ p.dest_mac;
    source_mac =
        read_bytes_ext k g 6 eth_source (λ i a b. same i (inl (omega arith))) ∙ p.source_mac;
    saddr = load32_ext k g ip_saddr (λ i a b. same i (inr (inl (omega arith)))) ∙ p.saddr;
    source_port =
        load16_ext k g udp_source (same 34 (ground arith)) (same 35 (ground arith)) ∙ p.source_port;
    kept = λ i h. same i (ground arith) ∙ p.kept i h;
    ip_sum = c.ip_sum ∙ p.ip_sum;
    udp_length = c.udp_length ∙ p.udp_length;
    udp_sum = λ long. c.udp_sum (omega (arith, p.udp_length)) ∙ p.udp_sum long;
  }

-- A packet with a destination is forwarded, if the header of the one that came in verifies.
pub IsForwarded-of_IsFromBroker :
    (f g : Frame) (packed : ℕ)
    → IsUdp 42 f
    → Verifies (word_sum f ip_base 10)
    → IsFromBroker f g
    → load32 g ip_daddr ≡ packed_ip packed
    → load16 g udp_dest ≡ packed_port packed
    → IsForwarded f packed g
unfolding word_sum load16
IsForwarded-of_IsFromBroker f g packed u valid p daddr port = record {
  same_length = p.same_length;
  dest_mac = p.dest_mac;
  source_mac = p.source_mac;
  saddr = p.saddr;
  daddr = daddr;
  source_port = p.source_port;
  dest_port = port;
  kept = p.kept;
  ip_valid =
      (omega (arith, p.kept ip_protocol (inl (omega arith)), u.protocol), p.ip_sum ∙ valid.1);
}

-- So is the checksum of a datagram.
pub udp_valid_of_IsFromBroker :
    (f g : Frame)
    → 8 ≤ datagram_length f
    → Verifies (received_sum f)
    → IsFromBroker f g
    → Verifies (received_sum g)
udp_valid_of_IsFromBroker f g long valid p =
    (omega (arith, received_sum-ge g), p.udp_sum long ∙ valid.1)
