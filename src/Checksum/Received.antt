-- ===== src/Checksum/Received.antt =====
-- What the receiver of a datagram adds up, and how a store changes it.
use bpf_broker.Prelude.{
  ℕ, ◌+◌, ◌-◌, ◌*◌, ◌/◌, ◌%◌, ◌^◌, ◌∙◌, ◌≤◌, ◌<◌, ◌≡◌, ◌⊎◌, inl, inr, arith, length, ◌==◌,
  if◌then◌else◌, ap,
}
use bpf_broker.Frame.{
  Frame, load8, load16, store16, store32, swap16, IsBytes, ip_base, udp_base, udp_check,
}
use bpf_broker.Frame.Access.{
  load16-lt, load16-store16_ne, load8-store16_ne, length-store16, load16_ext,
}
use bpf_broker.Frame.Words.{store32-halves, halves}
use bpf_broker.Checksum.Sum.{
  word_sum, word_sum-le, word_sum-store16, word_sum-store16_ne, word_sum_ext,
}

-- The addresses (four words), the protocol 17 and the length, as they stand in the frame.
unfoldable pub pseudo_total : Frame → ℕ → ℕ → ℕ
pseudo_total f ip udp = word_sum f (ip + 12) 4 + 4352 + load16 f (udp + 4)

pub pseudo_total-le : (f : Frame) (ip udp : ℕ) → IsBytes f → pseudo_total f ip udp ≤ 400000
unfolding pseudo_total
pseudo_total-le f ip udp b = omega (arith, word_sum-le f b 4 (ip + 12), load16-lt f b (udp + 4))

pub pseudo_total-ge : (f : Frame) (ip udp : ℕ) → 4352 ≤ pseudo_total f ip udp
unfolding pseudo_total
pseudo_total-ge f ip udp = omega arith

-- `udp->len` in host order
unfoldable pub datagram_length : Frame → ℕ
datagram_length f = swap16 (load16 f (udp_base + 4))

-- What the receiver of a frame adds up (RFC 768): the pseudo header and the datagram's words, the
-- last byte of an odd length padded by a zero byte.
unfoldable pub received_sum : Frame → ℕ
received_sum f =
    pseudo_total f ip_base udp_base
    + word_sum f udp_base (datagram_length f / 2)
    + (if datagram_length f % 2 == 1 then load8 f (udp_base + (datagram_length f - 1)) else 0)

-- The checksum field leaves the pseudo header and the length alone.
pub pseudo_total-store16 :
    (f : Frame) (v : ℕ)
    → pseudo_total (store16 f udp_check v) ip_base udp_base ≡ pseudo_total f ip_base udp_base
unfolding pseudo_total
pseudo_total-store16 f v = omega (
  arith,
  word_sum-store16_ne f udp_check v 4 (ip_base + 12) (inr (omega arith)),
  load16-store16_ne f udp_check v (udp_base + 4) (inl (omega arith)),
)

pub datagram_length-store16 :
    (f : Frame) (v : ℕ) → datagram_length (store16 f udp_check v) ≡ datagram_length f
unfolding datagram_length
datagram_length-store16 f v =
    omega (arith, load16-store16_ne f udp_check v (udp_base + 4) (inl (omega arith)))

-- A store that leaves the datagram's length alone.
module _ (f : Frame) (o v : ℕ) (apart : (o + 2 ≤ udp_base + 4) ⊎ (udp_base + 6 ≤ o)) where
  pub datagram_length-store16_ne : datagram_length (store16 f o v) ≡ datagram_length f
  unfolding datagram_length
  datagram_length-store16_ne =
      ap (λ w. swap16 w) (load16-store16_ne f o v (udp_base + 4) (ground arith))

  -- The padded byte lies behind the stored field.
  pad_byte :
      (l : ℕ)
      → l % 2 ≡ 1
      → (o + 2 ≤ udp_base) ⊎ ((o + 2 ≤ udp_base + 8) × (8 ≤ l))
      → load8 (store16 f o v) (udp_base + (l - 1)) ≡ load8 f (udp_base + (l - 1))
  pad_byte l odd behind = load8-store16_ne f o v (udp_base + (l - 1)) (ground arith)

  pad-store16_ne :
      (l : ℕ)
      → (o + 2 ≤ udp_base) ⊎ ((o + 2 ≤ udp_base + 8) × (8 ≤ l))
      → (if l % 2 == 1 then load8 (store16 f o v) (udp_base + (l - 1)) else 0)
        ≡ (if l % 2 == 1 then load8 f (udp_base + (l - 1)) else 0)
  pad-store16_ne l behind = ground (arith, λ (odd : l % 2 ≡ 1). pad_byte l odd behind)

  -- A field in front of what is summed.
  pub received_sum-store16_ne : o + 2 ≤ ip_base + 12 → received_sum (store16 f o v) ≡ received_sum f
  unfolding received_sum pseudo_total
  received_sum-store16_ne front = rw datagram_length-store16_ne (
      omega (
        arith,
        word_sum-store16_ne f o v 4 (ip_base + 12) (inl front),
        load16-store16_ne f o v (udp_base + 4) (inr (omega arith)),
        word_sum-store16_ne f o v (datagram_length f / 2) udp_base (inl (omega arith)),
        pad-store16_ne (datagram_length f) (inl (omega arith)),
      ))

  -- A word of the addresses.
  pub received_sum-store16_address :
      (k : ℕ)
      → k < 4
      → o ≡ ip_base + 12 + 2 * k
      → 42 ≤ length f
      → v < 65536
      → received_sum (store16 f o v) + load16 f o ≡ received_sum f + v
  unfolding received_sum pseudo_total
  received_sum-store16_address k h e room fits = rw datagram_length-store16_ne (
      omega (
        arith,
        word_sum-store16 f k o v 4 (ip_base + 12) e h (omega arith) fits,
        load16-store16_ne f o v (udp_base + 4) (inr (omega arith)),
        word_sum-store16_ne f o v (datagram_length f / 2) udp_base (inl (omega arith)),
        pad-store16_ne (datagram_length f) (inl (omega arith)),
      ))

  -- A word of the UDP header.
  pub received_sum-store16_header :
      (k : ℕ)
      → k < 4
      → o ≡ udp_base + 2 * k
      → 42 ≤ length f
      → v < 65536
      → 8 ≤ datagram_length f
      → received_sum (store16 f o v) + load16 f o ≡ received_sum f + v
  unfolding received_sum pseudo_total
  received_sum-store16_header k h e room fits long = rw datagram_length-store16_ne (
      omega (
        arith,
        word_sum-store16_ne f o v 4 (ip_base + 12) (inr (omega arith)),
        load16-store16_ne f o v (udp_base + 4) (ground arith),
        word_sum-store16 f k o v (datagram_length f / 2) udp_base e (omega arith) (omega arith)
            fits,
        pad-store16_ne (datagram_length f) (inr (omega arith, long)),
      ))

-- Both words of an address.
pub received_sum-store32 :
    (f : Frame) (o v : ℕ)
    → (o ≡ ip_base + 12) ⊎ (o ≡ ip_base + 16)
    → 42 ≤ length f
    → v < 2 ^ 32
    → received_sum (store32 f o v) + (load16 f o + load16 f (o + 2)) ≡ received_sum f + halves v
received_sum-store32 f o v where_o room fits =
    let low = store16 f o (v % 65536) in
    let k : ℕ = (o - 26) / 2 in
    rw (store32-halves f o v) (
      omega (
        arith,
        received_sum-store16_address f o (v % 65536) (inl (omega arith)) k (omega arith)
            (omega arith) room (omega arith),
        received_sum-store16_address low (o + 2) (v / 65536) (inl (omega arith)) (k + 1)
            (omega arith) (omega arith) (omega (arith, length-store16 f o (v % 65536)))
            (omega arith),
        load16-store16_ne f o (v % 65536) (o + 2) (inr (omega arith)),
      ))

pub datagram_length-store32 :
    (f : Frame) (o v : ℕ) → o + 4 ≤ udp_base → datagram_length (store32 f o v) ≡ datagram_length f
datagram_length-store32 f o v front =
    let low = store16 f o (v % 65536) in
    rw (store32-halves f o v) (
      datagram_length-store16_ne low (o + 2) (v / 65536) (inl (omega arith))
      ∙ datagram_length-store16_ne f o (v % 65536) (inl (omega arith)))

-- What is summed is determined by the bytes from the addresses on.
module _ (f g : Frame) (same : (i : ℕ) → ip_base + 12 ≤ i → load8 f i ≡ load8 g i) where
  pub datagram_length_ext : datagram_length f ≡ datagram_length g
  unfolding datagram_length
  datagram_length_ext =
      ap (λ w. swap16 w)
        (load16_ext f g (udp_base + 4) (same 38 (omega arith)) (same 39 (omega arith)))

  pub received_sum_ext : received_sum f ≡ received_sum g
  unfolding received_sum pseudo_total
  received_sum_ext = rw datagram_length_ext (
      omega (
        arith,
        word_sum_ext f g 4 (ip_base + 12) (λ i a b. same i (omega arith)),
        load16_ext f g (udp_base + 4) (same 38 (omega arith)) (same 39 (omega arith)),
        word_sum_ext f g (datagram_length g / 2) udp_base (λ i a b. same i (omega arith)),
        ap (λ (x : ℕ). if datagram_length g % 2 == 1 then x else 0)
            (same (udp_base + (datagram_length g - 1)) (omega arith)),
      ))

-- The protocol alone makes the sum positive.
pub received_sum-ge : (f : Frame) → 4352 ≤ received_sum f
unfolding received_sum
received_sum-ge f = omega (arith, pseudo_total-ge f ip_base udp_base)
