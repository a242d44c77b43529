-- ===== src/Checksum/Udp.antt =====
-- The UDP checksum: for which datagrams the stored field verifies at the receiver, by the number
-- of words that the loop can add.
mod Loop
use bpf_broker.Prelude.{
  ℕ, ◌+◌, ◌-◌, ◌*◌, ◌/◌, ◌%◌, ◌≤◌, ◌<◌, ◌≡◌, ◌↔◌, ◌⊎◌, inl, inr, refl, ap, arith, length, ◌==◌,
  if◌then◌else◌,
}
use bpf_broker.Frame.{Frame, load8, load16, store16, swap16, IsBytes, ip_base, udp_base, udp_check}
use bpf_broker.Frame.Access.{
  load16-lt, load16-store16_self, load16-store16_ne, load8-store16_ne, length-store16,
  store16-IsBytes,
}
use bpf_broker.Checksum.{fold, complement, udp_sum, udp_pad, udp_checksum}
use bpf_broker.Checksum.Sum.{
  word_sum, Verifies, word_sum-zero, word_sum-le, word_sum-split, word_sum-store16,
  word_sum-store16_ne,
}
use bpf_broker.Checksum.Ip.{complement-Verifies}
use Loop.{pseudo_header_sum-eq, udp_sum_lem}
use bpf_broker.Checksum.Received.{
  pseudo_total, pseudo_total-le, pseudo_total-ge, datagram_length, received_sum,
  pseudo_total-store16, datagram_length-store16,
}
use native.Mathlib.Decide.{dec_le}

-- The frame with the checksum cleared and computed.
abbrev pub with_checksum : (Frame → ℕ → ℕ → ℕ) → Frame → Frame
with_checksum checksum f =
    let cleared = store16 f udp_check 0 in
    store16 cleared udp_check (checksum cleared ip_base udp_base)

module _ (f : Frame) (b : IsBytes f) where
  abbrev cleared : Frame
  cleared = store16 f udp_check 0

  cleared-IsBytes : IsBytes cleared
  cleared-IsBytes = store16-IsBytes f udp_check 0 b

  -- The checksum where the loop covers `m` words of the datagram.
  udp_checksum-covered :
      (rounds m : ℕ)
      → rounds ≤ 1024
      → m ≤ rounds
      → udp_base + 2 * m ≤ length f
      → m * 2 ≤ datagram_length f + 1
      → (m ≡ rounds) ⊎ (datagram_length f ≤ m * 2) ⊎ (length f < udp_base + 2 * m + 2)
      → udp_checksum rounds cleared ip_base udp_base
        ≡ complement (
            fold (
              fold (
                udp_pad cleared (datagram_length f) (
                  pseudo_total cleared ip_base udp_base + word_sum cleared udp_base m,
                  udp_base + 2 * m,
                ))))
  unfolding udp_checksum
  udp_checksum-covered rounds m few h room inside stop = rw (
    same_length,
    pseudo_header_sum-eq cleared ip_base udp_base cleared-IsBytes,
    udp_sum_lem cleared (datagram_length f) cleared-IsBytes rounds m 0 udp_base
        (pseudo_total cleared ip_base udp_base) h (omega (arith, length-store16 f udp_check 0))
        (omega arith) (ground (arith, length-store16 f udp_check 0))
        (omega (arith, pseudo_total-le cleared ip_base udp_base cleared-IsBytes)),
  )
    where
      same_length : swap16 (load16 cleared (udp_base + 4)) ≡ datagram_length f
      same_length = unfold datagram_length in omega (arith, datagram_length-store16 f 0)

  -- The sum at the receiver: the covered words, the field, and what the loop did not reach.
  received_sum-checked :
      (v m : ℕ)
      → v < 65536
      → 42 ≤ length f
      → 8 ≤ datagram_length f
      → 4 ≤ m
      → m ≤ datagram_length f / 2
      → received_sum (store16 cleared udp_check v)
        ≡ pseudo_total cleared ip_base udp_base
          + word_sum cleared udp_base m
          + v
          + word_sum f (udp_base + 2 * m) (datagram_length f / 2 - m)
          + (if datagram_length f % 2 == 1 then load8 f (udp_base + (datagram_length f - 1)) else 0)
  unfolding received_sum
  received_sum-checked v m fits room long low h =
      let l = datagram_length f in
      let last = udp_base + (l - 1) in
      rw (datagram_length-store16 cleared v, datagram_length-store16 f 0)
        (ground (
          arith,
          pseudo_total-store16 cleared v,
          word_sum-store16 cleared 3 udp_check v (l / 2) udp_base (omega arith) (omega arith)
              (omega (arith, length-store16 f udp_check 0)) fits,
          load16-store16_self f udp_check 0 (omega arith) (omega arith),
          word_sum-split cleared m (l / 2 - m) (l / 2) udp_base (udp_base + 2 * m) (omega arith)
              (omega arith),
          word_sum-store16_ne f udp_check 0 (l / 2 - m) (udp_base + 2 * m) (inl (omega arith)),
          λ (odd : l % 2 ≡ 1). load8-store16_ne cleared udp_check v last (inr (omega arith)),
          λ (odd : l % 2 ≡ 1). load8-store16_ne f udp_check 0 last (inr (omega arith)),
        ))

pub udp_checksum-lt : (rounds : ℕ) (f : Frame) (ip udp : ℕ) → udp_checksum rounds f ip udp < 65536
unfolding udp_checksum
udp_checksum-lt rounds f ip udp = omega arith

-- An even length, where the loop covers `m` words.
even_covering :
    (rounds : ℕ) (f : Frame) (m : ℕ)
    → rounds ≤ 1024
    → IsBytes f
    → 8 ≤ datagram_length f
    → udp_base + datagram_length f ≤ length f
    → datagram_length f % 2 ≡ 0
    → 4 ≤ m
    → m ≤ rounds
    → m ≤ datagram_length f / 2
    → (m ≡ rounds) ⊎ (m ≡ datagram_length f / 2)
    → Verifies (received_sum (with_checksum (udp_checksum rounds) f))
      ↔ (word_sum f (udp_base + 2 * m) (datagram_length f / 2 - m) % 65535 ≡ 0)
unfolding udp_pad
even_covering rounds f m few b long room even four h low full =
    let g = store16 f udp_check 0 in
    let total = pseudo_total g ip_base udp_base + word_sum g udp_base m in
    let g-IsBytes = store16-IsBytes f udp_check 0 b in
    ground (
      arith,
      udp_checksum-covered f b rounds m few h,
      received_sum-checked f b (udp_checksum rounds g ip_base udp_base) m
          (udp_checksum-lt rounds g ip_base udp_base) (omega arith) long,
      complement-Verifies total,
      pseudo_total-le g ip_base udp_base g-IsBytes,
      word_sum-le g g-IsBytes m udp_base,
    )

-- For a frame of bytes that holds a datagram of even length of at least 8, and 4 to 1024 rounds:
-- the checksum that a loop of so many rounds gives verifies at the receiver exactly if the words
-- that the loop does not reach, those past twice as many bytes, sum to a multiple of 65535.
pub udp_checksum-even :
    (rounds : ℕ) (f : Frame)
    → 4 ≤ rounds
    → rounds ≤ 1024
    → IsBytes f
    → 8 ≤ datagram_length f
    → udp_base + datagram_length f ≤ length f
    → datagram_length f % 2 ≡ 0
    → Verifies (received_sum (with_checksum (udp_checksum rounds) f))
      ↔ (word_sum f (udp_base + 2 * rounds) (datagram_length f / 2 - rounds) % 65535 ≡ 0)
udp_checksum-even rounds f four few b long room even =
    elim (dec_le (datagram_length f / 2) rounds) [
      | yes small ↦ ground (
        arith,
        even_covering rounds f (datagram_length f / 2) few b long room even,
        word_sum-zero f (udp_base + 2 * (datagram_length f / 2)),
        word_sum-zero f (udp_base + 2 * rounds),
      )
      | no large ↦
          even_covering rounds f rounds few b long room even four (omega arith) (omega arith)
            (inl refl)
    ]

-- For a frame of bytes that ends with a datagram of odd length of at least 8, shorter than twice
-- the rounds, of which there are at most 1024: the checksum verifies at the receiver exactly if the
-- last byte is zero, since the code adds that byte as the high half of a word where the receiver
-- has it in the low half.
pub udp_checksum-odd :
    (rounds : ℕ) (f : Frame)
    → rounds ≤ 1024
    → IsBytes f
    → 8 ≤ datagram_length f
    → datagram_length f < 2 * rounds
    → udp_base + datagram_length f ≡ length f
    → datagram_length f % 2 ≡ 1
    → Verifies (received_sum (with_checksum (udp_checksum rounds) f))
      ↔ (load8 f (udp_base + (datagram_length f - 1)) ≡ 0)
unfolding udp_pad
udp_checksum-odd rounds f few b long short room odd =
    let l = datagram_length f in
    let g = store16 f udp_check 0 in
    let total = pseudo_total g ip_base udp_base + word_sum g udp_base (l / 2) in
    let last = udp_base + (l - 1) in
    let g-IsBytes = store16-IsBytes f udp_check 0 b in
    ground (
      arith,
      udp_checksum-covered f b rounds (l / 2) few (omega arith),
      received_sum-checked f b (udp_checksum rounds g ip_base udp_base) (l / 2)
          (udp_checksum-lt rounds g ip_base udp_base) (omega arith) long,
      complement-Verifies (total + load8 f last * 256),
      pseudo_total-le g ip_base udp_base g-IsBytes,
      pseudo_total-ge g ip_base udp_base,
      word_sum-le g g-IsBytes (l / 2) udp_base,
      word_sum-zero f (udp_base + 2 * (l / 2)),
      length-store16 f udp_check 0,
      ap (load8 g) {x = udp_base + 2 * (l / 2)} {y = last} (omega arith),
      load8-store16_ne f udp_check 0 last (inr (omega arith)),
      b last,
    )
