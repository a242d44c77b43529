-- ===== src/Rewrite.antt =====
-- The three steps by which xdp_broker turns a PUBLISH into a frame for one subscriber
-- (bpf_broker/bpf_broker_kern.c and bpf_broker_xdp/bpf_broker_kern.c).
pub mod Mac
pub mod Ip
pub mod Udp
pub mod Reply
pub mod Checked
pub mod Same
use bpf_broker.Prelude.{ℕ, zero, suc, ◌+◌, ◌/◌, ◌%◌, ◌^◌, List, [], ◌∷◌}
use bpf_broker.Frame.{
  Frame, load8, load16, load32, store8, store16, store32, eth_dest, eth_source, ip_base, ip_check,
  ip_saddr, ip_daddr, udp_base, udp_source, udp_dest, udp_check,
}
use bpf_broker.Checksum.{compute_ip_checksum}

-- The two halves of `__builtin_memcpy`, through a local array.
unfoldable pub read_bytes : Frame → ℕ → ℕ → List ℕ
read_bytes f zero o = []
read_bytes f (suc n) o = load8 f o ∷ read_bytes f n (o + 1)

unfoldable pub write_bytes : Frame → ℕ → List ℕ → Frame
write_bytes f o [] = f
write_bytes f o (b ∷ bs) = write_bytes (store8 f o b) (o + 1) bs

-- ETH_ALEN
abbrev pub eth_alen : ℕ
eth_alen = 6

unfoldable pub swap_macs : Frame → Frame
swap_macs f =
    let temp_mac = read_bytes f eth_alen eth_source in
    let f1 = write_bytes f eth_source (read_bytes f eth_alen eth_dest) in
    write_bytes f1 eth_dest temp_mac

unfoldable pub readdress_ip : Frame → ℕ → Frame
readdress_ip f dest_ip =
    let f1 = store32 f ip_saddr (load32 f ip_daddr) in
    let f2 = store32 f1 ip_daddr dest_ip in
    let f3 = store16 f2 ip_check 0 in store16 f3 ip_check (compute_ip_checksum f3 ip_base)

-- The checksum routine is a parameter: the two programs unroll its loop to different lengths.
unfoldable pub readdress_udp : (Frame → ℕ → ℕ → ℕ) → Frame → ℕ → Frame
readdress_udp checksum f dest_port =
    let f1 = store16 f udp_source (load16 f udp_dest) in
    let f2 = store16 f1 udp_dest dest_port in
    let f3 = store16 f2 udp_check 0 in store16 f3 udp_check (checksum f3 ip_base udp_base)

-- A subscriber packed in 64 bits: the address in the upper half, the port in bits 16 to 31, both
-- in network order.
abbrev pub packed_ip : ℕ → ℕ
packed_ip packed = packed / 2 ^ 32

abbrev pub packed_port : ℕ → ℕ
packed_port packed = packed / 2 ^ 16 % 2 ^ 16

unfoldable pub readdress : (Frame → ℕ → ℕ → ℕ) → Frame → ℕ → Frame
readdress checksum f packed =
    readdress_udp checksum (readdress_ip (swap_macs f) (packed_ip packed)) (packed_port packed)
