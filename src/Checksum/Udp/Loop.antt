-- ===== src/Checksum/Udp/Loop.antt =====
-- The sums of compute_udp_checksum as plain sums: within 32 bits nothing wraps.
use bpf_broker.Prelude.{ℕ, zero, suc, ◌+◌, ◌*◌, ◌^◌, ◌≤◌, ◌<◌, ◌≡◌, ◌⊎◌, ap, arith, length}
use bpf_broker.Frame.{Frame, u32, load16, load32, IsBytes}
use bpf_broker.Frame.Access.{load16-lt}
use bpf_broker.Checksum.{pseudo_header_sum, udp_sum}
use bpf_broker.Checksum.Sum.{word_sum}
use bpf_broker.Checksum.Received.{pseudo_total}

pub pseudo_header_sum-eq :
    (f : Frame) (ip udp : ℕ) → IsBytes f → pseudo_header_sum f ip udp ≡ pseudo_total f ip udp
unfolding pseudo_header_sum pseudo_total word_sum load32
pseudo_header_sum-eq f ip udp b = omega (
  arith,
  load16-lt f b (ip + 12),
  load16-lt f b (ip + 12 + 2),
  load16-lt f b (ip + 16),
  load16-lt f b (ip + 16 + 2),
  load16-lt f b (udp + 4),
  ap (load16 f) {x = ip + 16} {y = ip + 12 + 2 + 2} (omega arith),
  ap (load16 f) {x = ip + 16 + 2} {y = ip + 12 + 2 + 2 + 2} (omega arith),
)

-- The loop runs `m` rounds, if `m` words lie in the frame and in the datagram and the next does not.
pub udp_sum_lem :
    (f : Frame) (l : ℕ)
    → IsBytes f
    → (n m i p csum : ℕ) → m ≤ n
    → p + 2 * m ≤ length f
    → (i + m) * 2 ≤ l + 1
    → (m ≡ n) ⊎ (l ≤ (i + m) * 2) ⊎ (length f < p + 2 * m + 2)
    → csum + 65535 * m < 2 ^ 32
    → udp_sum f l n i p csum ≡ (csum + word_sum f p m, p + 2 * m)
unfolding udp_sum word_sum
udp_sum_lem f l b zero zero i p csum h room inside stop fits = ground arith
udp_sum_lem f l b zero (suc m) i p csum h room inside stop fits = absurd (omega arith)
udp_sum_lem f l b (suc n) zero i p csum h room inside stop fits = ground arith
udp_sum_lem f l b (suc n) (suc m) i p csum h room inside stop fits =
    ground (arith, load16-lt f b p, udp_sum_lem f l b n m (i + 1) (p + 2) (u32 (csum + load16 f p)))
