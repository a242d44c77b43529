-- ===== src/Checksum/Ip.antt =====
-- The IP header checksum: what compute_ip_checksum returns makes the header verify.
use bpf_broker.Prelude.{ℕ, zero, suc, ◌+◌, ◌*◌, ◌^◌, ◌≤◌, ◌<◌, ◌≡◌, arith, length}
use bpf_broker.Frame.{Frame, u32, load16, store16, IsBytes, ip_base, ip_check}
use bpf_broker.Frame.Access.{load16-lt, load16-store16_self, length-store16, store16-IsBytes}
use bpf_broker.Checksum.{fold, complement, ip_sum, compute_ip_checksum}
use bpf_broker.Checksum.Sum.{word_sum, Verifies, word_sum-le, word_sum-store16}

-- Within 32 bits the loop adds up the words with no wrap.
ip_sum-eq-word_sum :
    (f : Frame)
    → IsBytes f
    → (n p csum : ℕ) → csum + 65535 * n < 2 ^ 32
    → ip_sum f n p csum ≡ csum + word_sum f p n
unfolding ip_sum word_sum
ip_sum-eq-word_sum f b zero p csum h = omega arith
ip_sum-eq-word_sum f b (suc n) p csum h = omega (
  arith,
  load16-lt f b p,
  ip_sum-eq-word_sum f b n (p + 2) (u32 (csum + load16 f p)) (omega (arith, load16-lt f b p)),
)

-- The complement of the folded sum, added to that sum, is a multiple of 65535.
pub complement-Verifies :
    (total : ℕ) → total < 2 ^ 31 → Verifies (total + complement (fold (fold total)))
complement-Verifies total h = omega arith

pub compute_ip_checksum-lt : (f : Frame) (ip : ℕ) → compute_ip_checksum f ip < 65536
unfolding compute_ip_checksum
compute_ip_checksum-lt f ip = omega arith

module _ (f : Frame) (b : IsBytes f) (room : 34 ≤ length f) where
  abbrev cleared : Frame
  cleared = store16 f ip_check 0

  -- For a frame of bytes that holds the IP header: once the check field is cleared and then set to
  -- what compute_ip_checksum returns, the one's complement sum of the header's ten words is all
  -- ones.
  pub compute_ip_checksum-Verifies :
      Verifies
        (word_sum (store16 cleared ip_check (compute_ip_checksum cleared ip_base)) ip_base 10)
  unfolding compute_ip_checksum
  compute_ip_checksum-Verifies = omega (
    arith,
    ip_sum-eq-word_sum cleared (store16-IsBytes f ip_check 0 b) 10 ip_base 0 (omega arith),
    word_sum-le cleared (store16-IsBytes f ip_check 0 b) 10 ip_base,
    word_sum-store16 cleared 5 ip_check (compute_ip_checksum cleared ip_base) 10 ip_base
        (omega arith) (omega arith) (omega (arith, length-store16 f ip_check 0))
        (compute_ip_checksum-lt cleared ip_base),
    load16-store16_self f ip_check 0 (omega arith) (omega arith),
  )
