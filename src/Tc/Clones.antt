-- ===== src/Tc/Clones.antt =====
-- The clones of tc_ingress_broker, with helpers that work as documented: one for each subscriber, in
-- the order of the iteration, addressed to it, with checksums that are right if they were.
use bpf_broker.Prelude.{
  ℕ, ◌+◌, ◌*◌, ◌^◌, ◌≤◌, ◌<◌, ◌≡◌, refl, sym, ap, ◌∙◌, ◌⊎◌, inl, inr, true, arith, length, Option,
  some,
}
use mathlib.Core.Path.{subst}
use bpf_broker.Frame.{
  Frame, load8, load16, load32, store16, store32, IsBytes, ip_base, ip_check, ip_daddr, udp_base,
  udp_dest, udp_check,
}
use bpf_broker.Frame.Access.{
  length-store16, length-store32, store16-IsBytes, store32-IsBytes, load16-lt, load32-lt,
  load32-store16_ne, load32-store32_self, load16-store16_self, load8-store16_ne, load8-store32_ne,
  load16_ext, load32_ext,
}
use bpf_broker.Parse.{refresh_headers}
use bpf_broker.Parse.Headers.{IsUdp, refresh_headers_iff}
use bpf_broker.Rewrite.{packed_ip, packed_port}
use bpf_broker.Tc.{Helpers, Skb, pseudo_hdr, send_clone, replace_port, replace_address, callback_fn}
use bpf_broker.Tc.Fields.{IsReplaced, IsChanged, port-IsChanged, address-IsChanged}
use bpf_broker.Tc.Broker.{IsFromBroker, refresh_headers_kept, changed-IsFromBroker}

-- With these flags a helper replaces the checksum at an offset inside the packet, for values of so
-- many bytes.
abbrev pub Replaces : (Frame → ℕ → ℕ → ℕ → ℕ → Option Frame) → (size flags : ℕ) → Type 0
Replaces csum_replace size flags =
    (f : Frame) (o from to : ℕ)
    → IsBytes f
    → o + 2 ≤ length f
    → from < 2 ^ (8 * size)
    → to < 2 ^ (8 * size)
    → (g : Frame) × (csum_replace f o from to flags ≡ some g) × IsReplaced f o from to g

-- For the sizes and flags in use the helpers do what they are documented to do, and do not fail: the
-- low bits of the flags are the size of the field, and bpf_l4_csum_replace is told that the checksum
-- covers a pseudo header. Nothing is known of any other flags.
pub record Works (h : Helpers) : Type 0 where
  pub l3_address : Replaces h.l3_csum_replace 4 4
  pub l4_address : Replaces h.l4_csum_replace 4 (4 + pseudo_hdr)
  pub l4_port : Replaces h.l4_csum_replace 2 (2 + pseudo_hdr)
  pub redirects : (f : Frame) → h.clone_redirect f ≡ true

module _ (h : Helpers) (works : Works h) where
  -- A new port and its checksum, in a packet of bytes that holds the headers.
  module _ (f : Frame) (b : IsBytes f) (room : 42 ≤ length f) where
    pub new_port :
        (o v : ℕ)
        → (o ≡ udp_base) ⊎ (o ≡ udp_base + 2)
        → v < 65536
        → (g : Frame) × (h.l4_csum_replace
              (store16 f o v)
              udp_check
              (load16 f o)
              (load16 (store16 f o v) o)
              (2 + pseudo_hdr)
            ≡ some g)
          × IsChanged f o 2 g
          × (load16 g o ≡ v)
    new_port o v where_o fits =
        let f1 = store16 f o v in
        let now : load16 f1 o ≡ v = load16-store16_self f o v (omega arith) fits in
        let (g, e, r) =
          works.l4_port f1 udp_check (load16 f o) (load16 f1 o) (store16-IsBytes f o v b)
            (omega (arith, length-store16 f o v)) (omega (arith, load16-lt f b o))
            (omega (arith, now)) in
        let (changed, there) =
          port-IsChanged f b room o v r.check where_o fits r.fits (omega (arith, r.sum, now)) in
        (
          g,
          e,
          subst (λ k. IsChanged f o 2 k) (sym r.stored) changed,
          ap (λ k. load16 k o) r.stored ∙ there,
        )

    -- A new address, in both checksums. The packet between the two helpers has the same headers.
    pub new_address :
        (o v : ℕ)
        → (o ≡ ip_base + 12) ⊎ (o ≡ ip_base + 16)
        → v < 2 ^ 32
        → IsUdp 42 f
        → (g1 : Frame) × (g2 : Frame) × (h.l3_csum_replace
              (store32 f o v)
              ip_check
              (load32 f o)
              (load32 (store32 f o v) o)
              4
            ≡ some g1)
          × (refresh_headers g1 ≡ true)
          × (h.l4_csum_replace g1 udp_check (load32 f o) (load32 g1 o) (4 + pseudo_hdr) ≡ some g2)
          × IsChanged f o 4 g2
          × (load32 g2 o ≡ v)
    new_address o v where_o fits u =
        let f1 = store32 f o v in
        let now : load32 f1 o ≡ v = load32-store32_self f o v (omega arith) fits in
        let b1 = store32-IsBytes f o v b in
        let old : load32 f o < 2 ^ 32 = load32-lt f b o in
        let (g1, e1, r1) =
          works.l3_address f1 ip_check (load32 f o) (load32 f1 o) b1
            (omega (arith, length-store32 f o v)) old (omega (arith, now)) in
        let c = store16 f1 ip_check r1.check in
        let len : length g1 ≡ length f =
          ap length r1.stored ∙ length-store16 f1 ip_check r1.check ∙ length-store32 f o v in
        let now1 : load32 g1 o ≡ v =
          ap (λ k. load32 k o) r1.stored
          ∙ load32-store16_ne f1 ip_check r1.check o (inr (omega arith))
          ∙ now in
        let (g2, e2, r2) =
          works.l4_address g1 udp_check (load32 f o) (load32 g1 o)
            (subst IsBytes (sym r1.stored) (store16-IsBytes f1 ip_check r1.check b1))
            (omega (arith, len)) old (omega (arith, now1)) in
        let stored2 : g2 ≡ store16 c udp_check r2.check =
          r2.stored ∙ ap (λ k. store16 k udp_check r2.check) r1.stored in
        let before : load16 g1 udp_check ≡ load16 c udp_check =
          ap (λ k. load16 k udp_check) r1.stored in
        let (changed, there) =
          address-IsChanged f b room o v r1.check r2.check where_o fits r1.fits r2.fits
            (omega (arith, r1.sum, now)) (omega (arith, r2.sum, now1, before)) in
        (
          g1,
          g2,
          e1,
          refresh_headers_kept f g1 len
              (λ i p.
                ap (λ k. load8 k i) r1.stored
                ∙ load8-store16_ne f1 ip_check r1.check i (inl (omega arith))
                ∙ load8-store32_ne f o v i (inl (omega arith)))
              u,
          e2,
          subst (λ k. IsChanged f o 4 k) (sym stored2) changed,
          ap (λ k. load32 k o) stored2 ∙ there,
        )

-- The three parts of callback_fn where the helpers succeed.
module _ (h : Helpers) (packed : ℕ) (s : Skb) where
  replace_port_lem :
      (old_port : ℕ) (g : Frame)
      → h.l4_csum_replace
          (store16 s.packet udp_dest (packed_port packed))
          udp_check
          old_port
          (load16 (store16 s.packet udp_dest (packed_port packed)) udp_dest)
          (2 + pseudo_hdr)
        ≡ some g
      → refresh_headers g ≡ true
      → replace_port h packed old_port s ≡ send_clone h (record s { packet = g })
  unfolding replace_port
  replace_port_lem old_port g e r = ground arith

  replace_address_lem :
      (old_daddr old_port : ℕ) (g : Frame)
      → h.l4_csum_replace s.packet udp_check old_daddr (load32 s.packet ip_daddr) (4 + pseudo_hdr)
        ≡ some g
      → refresh_headers g ≡ true
      → replace_address h packed old_daddr old_port s
        ≡ replace_port h packed old_port (record s { packet = g })
  unfolding replace_address
  replace_address_lem old_daddr old_port g e r = ground arith

  callback_fn_lem :
      (g : Frame)
      → refresh_headers s.packet ≡ true
      → h.l3_csum_replace
          (store32 s.packet ip_daddr (packed_ip packed))
          ip_check
          (load32 s.packet ip_daddr)
          (load32 (store32 s.packet ip_daddr (packed_ip packed)) ip_daddr)
          4
        ≡ some g
      → refresh_headers g ≡ true
      → callback_fn h packed s
        ≡ replace_address h packed
            (load32 s.packet ip_daddr)
            (load16 s.packet udp_dest)
            (record s { packet = g })
  unfolding callback_fn
  callback_fn_lem g r0 e r = rw (r0, e, r)

module _ (h : Helpers) (works : Works h) (f : Frame) (u : IsUdp 42 f) where
  refresh_headers_of_IsFromBroker : {g : Frame} → IsFromBroker f g → refresh_headers g ≡ true
  refresh_headers_of_IsFromBroker {g} p =
      refresh_headers_kept f g p.same_length (λ i k. p.kept i (inl k)) u

  -- A subscriber's turn: the packet is addressed to it and cloned.
  pub callback_fn-sends :
      (packed : ℕ) (s : Skb)
      → packed < 2 ^ 64
      → IsFromBroker f s.packet
      → (g : Frame) × (callback_fn h packed s ≡ send_clone h (record s { packet = g }))
        × IsFromBroker f g
        × (load32 g ip_daddr ≡ packed_ip packed)
        × (load16 g udp_dest ≡ packed_port packed)
  callback_fn-sends packed s fits p =
      let f0 = s.packet in
      let room0 : 42 ≤ length f0 = omega (arith, p.same_length, u.room) in
      let r0 = refresh_headers_of_IsFromBroker p in
      let (g1, g2, e1, r1, e2, changed, daddr) =
        new_address h works f0 p.bytes room0 ip_daddr (packed_ip packed) (inr refl) (omega arith)
          ((refresh_headers_iff f0).0 r0) in
      let p2 = changed-IsFromBroker f f0 g2 ip_daddr 4 (inl (refl, refl)) changed p in
      let (g3, e3, changed3, dport) =
        new_port h works g2 p2.bytes (omega (arith, p2.same_length, u.room)) udp_dest
          (packed_port packed) (inr refl) (omega arith) in
      let p3 = changed-IsFromBroker f g2 g3 udp_dest 2 (inr (refl, refl)) changed3 p2 in
      let old_port : load16 g2 udp_dest ≡ load16 f0 udp_dest =
        load16_ext g2 f0 udp_dest (changed.others 36 (ground arith))
          (changed.others 37 (ground arith)) in
      (
        g3,
        callback_fn_lem h packed s g1 r0 e1 r1
            ∙ replace_address_lem h packed (record s { packet = g1 }) (load32 f0 ip_daddr)
                (load16 f0 udp_dest) g2 e2 (refresh_headers_of_IsFromBroker p2)
            ∙ replace_port_lem h packed (record s { packet = g2 }) (load16 f0 udp_dest) g3
                (rw (← old_port) e3) (refresh_headers_of_IsFromBroker p3),
        p3,
        load32_ext g3 g2 ip_daddr (λ i a b. changed3.others i (ground arith)) ∙ daddr,
        dport,
      )
