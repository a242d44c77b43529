-- ===== src/Checksum.antt =====
-- compute_ip_checksum and compute_udp_checksum of bpf_broker/bpf_broker_kern.c.
pub mod Sum
pub mod Received
pub mod Ip
pub mod Udp
use bpf_broker.Prelude.{
  ℕ, zero, suc, ◌+◌, ◌-◌, ◌*◌, ◌/◌, ◌%◌, Bool, true, false, ◌||◌, ◌&&◌, ltb, leb, ◌==◌, length,
  if◌then◌else◌,
}
use bpf_broker.Frame.{
  Frame, u16, u32, load8, load16, load32, swap16, sizeof_iphdr, ip_base, udp_base,
}

-- `csum = (csum & 0xffff) + (csum >> 16)`
abbrev pub fold : ℕ → ℕ
fold csum = u32 (csum % 65536 + csum / 65536)

-- `~csum`, cut to 16 bits
abbrev pub complement : ℕ → ℕ
complement csum = 65535 - csum % 65536

-- The loop over the header's words, `n` rounds from offset `p` on.
unfoldable pub ip_sum : Frame → ℕ → ℕ → ℕ → ℕ
ip_sum f zero p csum = csum
ip_sum f (suc n) p csum = ip_sum f n (p + 2) (u32 (csum + load16 f p))

unfoldable pub compute_ip_checksum : Frame → ℕ → ℕ
compute_ip_checksum f ip = complement (fold (fold (ip_sum f (sizeof_iphdr / 2) ip 0)))

-- The sums before the loop: the addresses, the protocol and the length.
unfoldable pub pseudo_header_sum : Frame → ℕ → ℕ → ℕ
pseudo_header_sum f ip udp =
    let saddr = load32 f (ip + 12) in
    let daddr = load32 f (ip + 16) in
    let c1 = u32 (u16 (saddr / 65536)) in
    let c2 = u32 (c1 + u16 (saddr % 65536)) in
    let c3 = u32 (c2 + u16 (daddr / 65536)) in
    let c4 = u32 (c3 + u16 (daddr % 65536)) in
    let c5 = u32 (c4 + swap16 17) in u32 (c5 + load16 f (udp + 4))

-- The loop over the datagram's words: the sum and where `ptr` stands when it stops.
unfoldable pub udp_sum : Frame → ℕ → ℕ → ℕ → ℕ → ℕ → ℕ × ℕ
udp_sum f udp_len zero i p csum = (csum, p)
udp_sum f udp_len (suc n) i p csum = elim (ltb (length f) (p + 2) || leb udp_len (i * 2)) [
  | true ↦ (csum, p)
  | false ↦ udp_sum f udp_len n (i + 1) (p + 2) (u32 (csum + load16 f p))
]

-- The last byte of an odd length.
unfoldable pub udp_pad : Frame → ℕ → ℕ × ℕ → ℕ
udp_pad f udp_len (csum, p) =
    if udp_len % 2 == 1 && ltb p (length f) then u32 (csum + load8 f p * 256) else csum

-- The body, with the number of rounds that its loop is unrolled to.
unfoldable pub udp_checksum : ℕ → Frame → ℕ → ℕ → ℕ
udp_checksum rounds f ip udp =
    let udp_len = swap16 (load16 f (udp + 4)) in
    let summed = udp_sum f udp_len rounds 0 udp (pseudo_header_sum f ip udp) in
    complement (fold (fold (udp_pad f udp_len summed)))

unfoldable pub compute_udp_checksum : Frame → ℕ → ℕ → ℕ
compute_udp_checksum = udp_checksum 128
