-- ===== src/Rewrite/Same.antt =====
-- A forwarded frame is determined but for its two checksums.
use bpf_broker.Prelude.{ℕ, zero, suc, ◌+◌, ◌≤◌, ◌<◌, ◌≡◌, sym, ◌∙◌, ◌⊎◌, inl, inr, arith, List, ◌∷◌}
use native.Mathlib.Decide.{dec_lt}
use mathlib.Core.Path.{subst}
use bpf_broker.Frame.Access.{load16-lt}
use bpf_broker.Frame.{
  Frame, ip_saddr, ip_daddr, udp_source, udp_dest, eth_dest, load8, load16, load32, IsBytes,
  eth_source, ip_check, udp_check,
}
use bpf_broker.Rewrite.{read_bytes}
use bpf_broker.Rewrite.Reply.{IsForwarded}

-- Fields of bytes determine their bytes.
load16-bytes :
    (f g : Frame) (o : ℕ)
    → IsBytes f
    → IsBytes g
    → load16 f o ≡ load16 g o
    → (load8 f o ≡ load8 g o) × (load8 f (o + 1) ≡ load8 g (o + 1))
unfolding load16
load16-bytes f g o b c e =
    (omega (arith, b o, b (o + 1), c o, c (o + 1)), omega (arith, b o, b (o + 1), c o, c (o + 1)))

load32-load16 :
    (f g : Frame) (o : ℕ)
    → IsBytes f
    → IsBytes g
    → load32 f o ≡ load32 g o
    → (load16 f o ≡ load16 g o) × (load16 f (o + 2) ≡ load16 g (o + 2))
unfolding load32
load32-load16 f g o b c e =
    let f0 = load16-lt f b o in
    let f2 = load16-lt f b (o + 2) in
    let g0 = load16-lt g c o in let g2 = load16-lt g c (o + 2) in (omega arith, omega arith)

-- The four bytes of a field of 32 bits.
four_bytes : (o i : ℕ) → o ≤ i → i < o + 4 → (i ≡ o) ⊎ (i ≡ o + 1) ⊎ (i ≡ o + 2) ⊎ (i ≡ o + 2 + 1)
four_bytes o i low high = elim (dec_lt i (o + 1)) [
  | yes a ↦ inl (omega arith)
  | no a ↦ elim (dec_lt i (o + 2)) [
    | yes b ↦ inr (inl (omega arith))
    | no b ↦ elim (dec_lt i (o + 3)) [
      | yes c ↦ inr (inr (inl (omega arith)))
      | no c ↦ inr (inr (inr (omega arith)))
    ]
  ]
]

four_agree :
    (f g : Frame) (o i : ℕ)
    → o ≤ i
    → i < o + 4
    → load8 f o ≡ load8 g o
    → load8 f (o + 1) ≡ load8 g (o + 1)
    → load8 f (o + 2) ≡ load8 g (o + 2)
    → load8 f (o + 2 + 1) ≡ load8 g (o + 2 + 1)
    → load8 f i ≡ load8 g i
four_agree f g o i low high e0 e1 e2 e3 =
    let same = λ (j : ℕ). load8 f j ≡ load8 g j in
    elim (four_bytes o i low high) [
      | inl h ↦ subst same (sym h) e0
      | inr (inl h) ↦ subst same (sym h) e1
      | inr (inr (inl h)) ↦ subst same (sym h) e2
      | inr (inr (inr h)) ↦ subst same (sym h) e3
    ]

load32-bytes :
    (f g : Frame) (o i : ℕ)
    → IsBytes f
    → IsBytes g
    → load32 f o ≡ load32 g o
    → o ≤ i
    → i < o + 4
    → load8 f i ≡ load8 g i
load32-bytes f g o i b c e low high =
    let (low16, high16) = load32-load16 f g o b c e in
    let (e0, e1) = load16-bytes f g o b c low16 in
    let (e2, e3) = load16-bytes f g (o + 2) b c high16 in four_agree f g o i low high e0 e1 e2 e3

cons_parts : {x y : ℕ} {xs ys : List ℕ} → x ∷ xs ≡ y ∷ ys → (x ≡ y) × (xs ≡ ys)
cons_parts e = (cc e, cc e)

read_bytes-bytes :
    (f g : Frame) (n o i : ℕ)
    → read_bytes f n o ≡ read_bytes g n o
    → o ≤ i
    → i < o + n
    → load8 f i ≡ load8 g i
unfolding read_bytes
read_bytes-bytes f g zero o i e low high = absurd (omega arith)
read_bytes-bytes f g (suc n) o i e low high = elim (dec_lt o i) [
  | yes further ↦ read_bytes-bytes f g n (o + 1) i (cons_parts e).1 (omega arith) (omega arith)
  | no here ↦ subst (λ (j : ℕ). load8 f j ≡ load8 g j) (omega arith) (cons_parts e).0
]

mac_agree :
    (f g k : Frame) (packed i : ℕ)
    → IsForwarded f packed g
    → IsForwarded f packed k
    → i < 12
    → load8 g i ≡ load8 k i
mac_agree f g k packed i p q h = elim (dec_lt i 6) [
  | yes low ↦
      read_bytes-bytes g k 6 eth_dest i (p.dest_mac ∙ sym q.dest_mac) (omega arith) (omega arith)
  | no high ↦
      read_bytes-bytes g k 6 eth_source i (p.source_mac ∙ sym q.source_mac) (omega arith)
        (omega arith)
]

port_agree :
    (f g k : Frame) (packed i : ℕ)
    → IsBytes g
    → IsBytes k
    → IsForwarded f packed g
    → IsForwarded f packed k
    → 34 ≤ i
    → i < 38
    → load8 g i ≡ load8 k i
port_agree f g k packed i b c p q low high =
    let (s0, s1) = load16-bytes g k udp_source b c (p.source_port ∙ sym q.source_port) in
    let (d0, d1) = load16-bytes g k udp_dest b c (p.dest_port ∙ sym q.dest_port) in
    four_agree g k 34 i low (omega arith) s0 s1 d0 d1

-- Where a byte behind the addresses of Ethernet stands, if not in a checksum.
field_of :
    (i : ℕ)
    → 12 ≤ i
    → (i < ip_check) ⊎ (ip_check + 2 ≤ i)
    → (i < udp_check) ⊎ (udp_check + 2 ≤ i)
    → (((12 ≤ i) × (i < 24)) ⊎ ((38 ≤ i) × (i < 40)) ⊎ (42 ≤ i))
      ⊎ ((26 ≤ i) × (i < 30))
      ⊎ ((30 ≤ i) × (i < 34))
      ⊎ ((34 ≤ i) × (i < 38))
field_of i far ip udp = elim (dec_lt i 24) [
  | yes a ↦ inl (inl (far, a))
  | no a ↦ elim (dec_lt i 30) [
    | yes b ↦ inr (inl (ground arith, b))
    | no b ↦ elim (dec_lt i 34) [
      | yes c ↦ inr (inr (inl (omega arith, c)))
      | no c ↦ elim (dec_lt i 38) [
        | yes d ↦ inr (inr (inr (omega arith, d)))
        | no d ↦ elim (dec_lt i 40) [
          | yes e ↦ inl (inr (inl (omega arith, e)))
          | no e ↦ inl (inr (inr (ground arith)))
        ]
      ]
    ]
  ]
]

-- Two frames that carry the same datagram to the same subscriber agree in every byte outside the
-- checksums.
pub IsForwarded-agree :
    (f g k : Frame) (packed i : ℕ)
    → IsBytes g
    → IsBytes k
    → IsForwarded f packed g
    → IsForwarded f packed k
    → (i < ip_check) ⊎ (ip_check + 2 ≤ i)
    → (i < udp_check) ⊎ (udp_check + 2 ≤ i)
    → load8 g i ≡ load8 k i
IsForwarded-agree f g k packed i b c p q ip udp = elim (dec_lt i 12) [
  | yes macs ↦ mac_agree f g k packed i p q macs
  | no l ↦ elim (field_of i (omega arith) ip udp) [
    | inl h ↦ p.kept i h ∙ sym (q.kept i h)
    | inr (inl h) ↦ load32-bytes g k ip_saddr i b c (p.saddr ∙ sym q.saddr) h.0 h.1
    | inr (inr (inl h)) ↦ load32-bytes g k ip_daddr i b c (p.daddr ∙ sym q.daddr) h.0 h.1
    | inr (inr (inr h)) ↦ port_agree f g k packed i b c p q h.0 h.1
  ]
]
