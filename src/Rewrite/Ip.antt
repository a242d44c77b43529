-- ===== src/Rewrite/Ip.antt =====
-- readdress_ip: the new addresses, and a header that verifies.
use bpf_broker.Prelude.{ℕ, ◌+◌, ◌^◌, ◌≤◌, ◌<◌, ◌≡◌, ◌∙◌, ◌⊎◌, inr, arith, length}
use bpf_broker.Frame.{
  Frame, load8, load32, store16, store32, IsBytes, ip_base, ip_check, ip_saddr, ip_daddr,
}
use bpf_broker.Frame.Access.{
  length-store16, length-store32, store16-IsBytes, store32-IsBytes, load8-store16_ne,
  load8-store32_ne, load32-store16_ne, load32-store32_below, load32-store32_self, load32-lt,
}
use bpf_broker.Checksum.{compute_ip_checksum}
use bpf_broker.Checksum.Sum.{word_sum, Verifies}
use bpf_broker.Checksum.Ip.{compute_ip_checksum-Verifies}
use bpf_broker.Rewrite.{readdress_ip}

module _ (f : Frame) (dest_ip : ℕ) where
  -- The frame before its header checksum is written.
  abbrev addressed : Frame
  addressed = store32 (store32 f ip_saddr (load32 f ip_daddr)) ip_daddr dest_ip

  length-addressed : length addressed ≡ length f
  length-addressed =
      length-store32 (store32 f ip_saddr (load32 f ip_daddr)) ip_daddr dest_ip
      ∙ length-store32 f ip_saddr (load32 f ip_daddr)

  addressed-IsBytes : IsBytes f → IsBytes addressed
  addressed-IsBytes b =
      store32-IsBytes (store32 f ip_saddr (load32 f ip_daddr)) ip_daddr dest_ip
        (store32-IsBytes f ip_saddr (load32 f ip_daddr) b)

  abbrev checked : ℕ → Frame
  checked v = store16 (store16 addressed ip_check 0) ip_check v

  load32-checked : (v i : ℕ) → ip_check + 2 ≤ i → load32 (checked v) i ≡ load32 addressed i
  load32-checked v i h =
      load32-store16_ne (store16 addressed ip_check 0) ip_check v i (inr h)
      ∙ load32-store16_ne addressed ip_check 0 i (inr h)

  abbrev check_value : ℕ
  check_value = compute_ip_checksum (store16 addressed ip_check 0) ip_base

  pub length-readdress_ip : length (readdress_ip f dest_ip) ≡ length f
  unfolding readdress_ip
  length-readdress_ip =
      length-store16 (store16 addressed ip_check 0) ip_check check_value
      ∙ length-store16 addressed ip_check 0
      ∙ length-addressed

  pub readdress_ip-IsBytes : IsBytes f → IsBytes (readdress_ip f dest_ip)
  unfolding readdress_ip
  readdress_ip-IsBytes b =
      store16-IsBytes (store16 addressed ip_check 0) ip_check check_value
        (store16-IsBytes addressed ip_check 0 (addressed-IsBytes b))

  -- Only the checksum and the addresses change.
  pub load8-readdress_ip :
      (i : ℕ) → (i < ip_check) ⊎ (34 ≤ i) → load8 (readdress_ip f dest_ip) i ≡ load8 f i
  unfolding readdress_ip
  load8-readdress_ip i h =
      load8-store16_ne (store16 addressed ip_check 0) ip_check check_value i (ground arith)
      ∙ load8-store16_ne addressed ip_check 0 i (ground arith)
      ∙ load8-store32_ne (store32 f ip_saddr (load32 f ip_daddr)) ip_daddr dest_ip i (ground arith)
      ∙ load8-store32_ne f ip_saddr (load32 f ip_daddr) i (ground arith)

  module _ (b : IsBytes f) (room : 34 ≤ length f) where
    pub readdress_ip-Verifies : Verifies (word_sum (readdress_ip f dest_ip) ip_base 10)
    unfolding readdress_ip
    readdress_ip-Verifies =
        compute_ip_checksum-Verifies addressed (addressed-IsBytes b)
          (omega (arith, length-addressed))

    -- The sender of the new frame is the broker, to which the old one was sent.
    pub load32-readdress_ip_saddr : load32 (readdress_ip f dest_ip) ip_saddr ≡ load32 f ip_daddr
    unfolding readdress_ip
    load32-readdress_ip_saddr =
        load32-checked check_value ip_saddr (omega arith)
        ∙ load32-store32_below (store32 f ip_saddr (load32 f ip_daddr)) ip_daddr dest_ip ip_saddr
            (omega arith)
        ∙ load32-store32_self f ip_saddr (load32 f ip_daddr) (omega arith) (load32-lt f b ip_daddr)

    pub load32-readdress_ip_daddr :
        dest_ip < 2 ^ 32 → load32 (readdress_ip f dest_ip) ip_daddr ≡ dest_ip
    unfolding readdress_ip
    load32-readdress_ip_daddr fits =
        load32-checked check_value ip_daddr (omega arith)
        ∙ load32-store32_self (store32 f ip_saddr (load32 f ip_daddr)) ip_daddr dest_ip
            (omega (arith, length-store32 f ip_saddr (load32 f ip_daddr))) fits
