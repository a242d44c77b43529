-- ===== src/Tc/Fields.antt =====
-- A field of the headers that is stored and then accounted for in the checksums.
use bpf_broker.Prelude.{
  ℕ, ◌+◌, ◌-◌, ◌/◌, ◌%◌, ◌^◌, ◌≤◌, ◌<◌, ◌≡◌, ◌∙◌, ◌⊎◌, inl, inr, arith, length,
}
use bpf_broker.Frame.{
  Frame, load8, load16, load32, store16, store32, IsBytes, ip_base, ip_check, udp_base, udp_check,
}
use bpf_broker.Frame.Access.{
  length-store16, length-store32, store16-IsBytes, store32-IsBytes, load8-store16_ne,
  load8-store32_ne, load16-store16_self, load16-store16_ne, load16-lt, load32-store16_ne,
  load32-store32_self,
}
use bpf_broker.Frame.Words.{halves, halves-load32}
use bpf_broker.Checksum.Sum.{word_sum, word_sum-store16, word_sum-store16_ne, word_sum-store32}
use bpf_broker.Checksum.Received.{
  datagram_length, datagram_length-store16_ne, datagram_length-store32, received_sum,
  received_sum-store16_ne, received_sum-store16_header, received_sum-store32,
}

-- RFC 1624: `g` is `f` with a new checksum at `o`, which takes account of a field that held `from`
-- and holds `to`. This is what the two helpers that replace a checksum do.
pub record IsReplaced (f : Frame) (o from to : ℕ) (g : Frame) : Type 0 where
  pub check : ℕ
  pub fits : check < 65536
  pub stored : g ≡ store16 f o check
  pub sum : (check + halves to) % 65535 ≡ (load16 f o + halves from) % 65535

-- The byte lies in no checksum and not among the `w` bytes at `o`.
abbrev pub IsApart : ℕ → ℕ → ℕ → Type 0
IsApart o w i =
    ((i < o) ⊎ (o + w ≤ i))
    × ((i < ip_check) ⊎ (ip_check + 2 ≤ i))
    × ((i < udp_check) ⊎ (udp_check + 2 ≤ i))

-- `g` differs from `f` in the `w` bytes at `o` and in the checksums, and has the sums of `f`.
pub record IsChanged (f : Frame) (o w : ℕ) (g : Frame) : Type 0 where
  pub bytes : IsBytes g
  pub same_length : length g ≡ length f
  pub others : (i : ℕ) → IsApart o w i → load8 g i ≡ load8 f i
  pub ip_sum : word_sum g ip_base 10 % 65535 ≡ word_sum f ip_base 10 % 65535
  pub udp_length : datagram_length g ≡ datagram_length f
  pub udp_sum : 8 ≤ datagram_length f → received_sum g % 65535 ≡ received_sum f % 65535

module _ (f : Frame) (b : IsBytes f) (room : 42 ≤ length f) where
  -- A port.
  module _ (o v c : ℕ) (where_o : (o ≡ udp_base) ⊎ (o ≡ udp_base + 2)) (fits : v < 65536)
      (small : c < 65536) where
    abbrev ported : Frame
    ported = store16 f o v

    ported_sum :
        (c + halves v) % 65535 ≡ (load16 ported udp_check + halves (load16 f o)) % 65535
        → 8 ≤ datagram_length f
        → received_sum (store16 ported udp_check c) % 65535 ≡ received_sum f % 65535
    ported_sum sum long =
        let k : ℕ = (o - udp_base) / 2 in
        let same = datagram_length-store16_ne f o v (inl (omega arith)) in
        omega (
          arith,
          received_sum-store16_header f o v (inl (omega arith)) k (omega arith) (omega arith) room
              fits long,
          received_sum-store16_header ported udp_check c (inr (omega arith)) 3 (omega arith)
              (omega arith) (omega (arith, length-store16 f o v)) small (omega (arith, same)),
          load16-lt f b o,
        )

    pub port-IsChanged :
        (c + halves v) % 65535 ≡ (load16 ported udp_check + halves (load16 f o)) % 65535
        → IsChanged f o 2 (store16 ported udp_check c) × (load16 (store16 ported udp_check c) o ≡ v)
    port-IsChanged sum = (
      record {
        bytes = store16-IsBytes ported udp_check c (store16-IsBytes f o v b);
        same_length = length-store16 ported udp_check c ∙ length-store16 f o v;
        others = λ i apart.
            load8-store16_ne ported udp_check c i (ground arith)
            ∙ load8-store16_ne f o v i (ground arith);
        ip_sum = omega (
          arith,
          word_sum-store16_ne ported udp_check c 10 ip_base (inr (omega arith)),
          word_sum-store16_ne f o v 10 ip_base (inr (omega arith)),
        );
        udp_length =
            datagram_length-store16_ne ported udp_check c (inr (omega arith))
            ∙ datagram_length-store16_ne f o v (inl (omega arith));
        udp_sum = ported_sum sum;
      },
      load16-store16_ne ported udp_check c o (inl (omega arith))
          ∙ load16-store16_self f o v (omega arith) fits,
    )

  -- An address, which is in the checksum of the header and in that of the datagram.
  module _ (o v c d : ℕ) (where_o : (o ≡ ip_base + 12) ⊎ (o ≡ ip_base + 16)) (fits : v < 2 ^ 32)
      (small : c < 65536) (small' : d < 65536) where
    abbrev addressed : Frame
    addressed = store32 f o v

    abbrev checked : Frame
    checked = store16 addressed ip_check c

    length-checked : length checked ≡ length f
    length-checked = length-store16 addressed ip_check c ∙ length-store32 f o v

    addressed_ip_sum :
        (c + halves v) % 65535 ≡ (load16 addressed ip_check + halves (load32 f o)) % 65535
        → word_sum (store16 checked udp_check d) ip_base 10 % 65535 ≡ word_sum f ip_base 10 % 65535
    addressed_ip_sum sum =
        let k : ℕ = (o - ip_base) / 2 in
        omega (
          arith,
          word_sum-store16_ne checked udp_check d 10 ip_base (inr (omega arith)),
          word_sum-store16 addressed 5 ip_check c 10 ip_base (omega arith) (omega arith)
              (omega (arith, length-store32 f o v)) small,
          word_sum-store32 f k o v 10 ip_base (omega arith) (omega arith) (omega arith) fits,
          halves-load32 f b o,
        )

    datagram_length-checked : datagram_length checked ≡ datagram_length f
    datagram_length-checked =
        datagram_length-store16_ne addressed ip_check c (inl (omega arith))
        ∙ datagram_length-store32 f o v (omega arith)

    addressed_udp_sum :
        (d + halves v) % 65535 ≡ (load16 checked udp_check + halves (load32 f o)) % 65535
        → 8 ≤ datagram_length f
        → received_sum (store16 checked udp_check d) % 65535 ≡ received_sum f % 65535
    addressed_udp_sum sum long = omega (
      arith,
      received_sum-store16_header checked udp_check d (inr (omega arith)) 3 (omega arith)
          (omega arith) (omega (arith, length-checked)) small'
          (omega (arith, datagram_length-checked)),
      received_sum-store16_ne addressed ip_check c (inl (omega arith)) (omega arith),
      received_sum-store32 f o v where_o room fits,
      halves-load32 f b o,
    )

    pub address-IsChanged :
        (c + halves v) % 65535 ≡ (load16 addressed ip_check + halves (load32 f o)) % 65535
        → (d + halves v) % 65535 ≡ (load16 checked udp_check + halves (load32 f o)) % 65535
        → IsChanged f o 4 (store16 checked udp_check d)
          × (load32 (store16 checked udp_check d) o ≡ v)
    address-IsChanged ip udp = (
      record {
        bytes =
            store16-IsBytes checked udp_check d
              (store16-IsBytes addressed ip_check c (store32-IsBytes f o v b));
        same_length = length-store16 checked udp_check d ∙ length-checked;
        others = λ i apart.
            load8-store16_ne checked udp_check d i (ground arith)
            ∙ load8-store16_ne addressed ip_check c i (ground arith)
            ∙ load8-store32_ne f o v i (ground arith);
        ip_sum = addressed_ip_sum ip;
        udp_length =
            datagram_length-store16_ne checked udp_check d (inr (omega arith))
            ∙ datagram_length-checked;
        udp_sum = addressed_udp_sum udp;
      },
      load32-store16_ne checked udp_check d o (inl (omega arith))
          ∙ load32-store16_ne addressed ip_check c o (inr (omega arith))
          ∙ load32-store32_self f o v (omega arith) fits,
    )
