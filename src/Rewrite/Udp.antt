-- ===== src/Rewrite/Udp.antt =====
-- readdress_udp: the new ports, with the checksum of the frame that carries them.
use bpf_broker.Prelude.{ℕ, ◌+◌, ◌^◌, ◌≤◌, ◌<◌, ◌≡◌, refl, ◌∙◌, ◌⊎◌, inl, arith, length}
use bpf_broker.Frame.{
  Frame, load8, load16, store16, IsBytes, ip_base, udp_base, udp_source, udp_dest, udp_check,
}
use bpf_broker.Frame.Access.{
  length-store16, store16-IsBytes, load8-store16_ne, load16-store16_ne, load16-store16_self,
  load16-lt,
}
use bpf_broker.Checksum.Udp.{with_checksum}
use bpf_broker.Rewrite.{readdress_udp}

module _ (checksum : Frame → ℕ → ℕ → ℕ) (f : Frame) (dest_port : ℕ) where
  abbrev from_broker : Frame
  from_broker = store16 f udp_source (load16 f udp_dest)

  -- The frame before its checksum is written.
  abbrev pub ported : Frame
  ported = store16 from_broker udp_dest dest_port

  abbrev check_value : ℕ
  check_value = checksum (store16 ported udp_check 0) ip_base udp_base

  pub readdress_udp-with_checksum :
      readdress_udp checksum f dest_port ≡ with_checksum checksum ported
  unfolding readdress_udp
  readdress_udp-with_checksum = refl

  pub length-ported : length ported ≡ length f
  length-ported =
      length-store16 from_broker udp_dest dest_port
      ∙ length-store16 f udp_source (load16 f udp_dest)

  pub ported-IsBytes : IsBytes f → IsBytes ported
  ported-IsBytes b =
      store16-IsBytes from_broker udp_dest dest_port
        (store16-IsBytes f udp_source (load16 f udp_dest) b)

  pub load8-ported : (i : ℕ) → (i < 34) ⊎ (38 ≤ i) → load8 ported i ≡ load8 f i
  load8-ported i h =
      load8-store16_ne from_broker udp_dest dest_port i (ground arith)
      ∙ load8-store16_ne f udp_source (load16 f udp_dest) i (ground arith)

  pub length-readdress_udp : length (readdress_udp checksum f dest_port) ≡ length f
  unfolding readdress_udp
  length-readdress_udp =
      length-store16 (store16 ported udp_check 0) udp_check check_value
      ∙ length-store16 ported udp_check 0
      ∙ length-ported

  pub readdress_udp-IsBytes : IsBytes f → IsBytes (readdress_udp checksum f dest_port)
  unfolding readdress_udp
  readdress_udp-IsBytes b =
      store16-IsBytes (store16 ported udp_check 0) udp_check check_value
        (store16-IsBytes ported udp_check 0 (ported-IsBytes b))

  -- Only the ports and the checksum change.
  pub load8-readdress_udp :
      (i : ℕ)
      → (i < 34) ⊎ ((38 ≤ i) × (i < 40)) ⊎ (42 ≤ i)
      → load8 (readdress_udp checksum f dest_port) i ≡ load8 f i
  unfolding readdress_udp
  load8-readdress_udp i h =
      load8-store16_ne (store16 ported udp_check 0) udp_check check_value i (ground arith)
      ∙ load8-store16_ne ported udp_check 0 i (ground arith)
      ∙ load8-ported i (ground arith)

  load16-checked :
      (i : ℕ) → i + 2 ≤ udp_check → load16 (readdress_udp checksum f dest_port) i ≡ load16 ported i
  unfolding readdress_udp
  load16-checked i h =
      load16-store16_ne (store16 ported udp_check 0) udp_check check_value i (inl h)
      ∙ load16-store16_ne ported udp_check 0 i (inl h)

  module _ (b : IsBytes f) (room : 42 ≤ length f) where
    pub load16-readdress_udp_source :
        load16 (readdress_udp checksum f dest_port) udp_source ≡ load16 f udp_dest
    load16-readdress_udp_source =
        load16-checked udp_source (omega arith)
        ∙ load16-store16_ne from_broker udp_dest dest_port udp_source (inl (omega arith))
        ∙ load16-store16_self f udp_source (load16 f udp_dest) (omega arith)
            (load16-lt f b udp_dest)

    pub load16-readdress_udp_dest :
        dest_port < 2 ^ 16 → load16 (readdress_udp checksum f dest_port) udp_dest ≡ dest_port
    load16-readdress_udp_dest fits =
        load16-checked udp_dest (omega arith)
        ∙ load16-store16_self from_broker udp_dest dest_port
            (omega (arith, length-store16 f udp_source (load16 f udp_dest))) fits
