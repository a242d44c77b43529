-- ===== src/Rewrite/Checked.antt =====
-- A frame whose UDP checksum is the one that the code computes of it.
use bpf_broker.Prelude.{
  ℕ, zero, suc, ◌+◌, ◌/◌, ◌%◌, ◌≡◌, ◌≢◌, refl, ap, ◌∙◌, arith, set, List, [], ◌∷◌,
}
use bpf_broker.Frame.{Frame, store8, store16, ip_base, udp_base, udp_check}
use bpf_broker.Checksum.Udp.{with_checksum}
use bpf_broker.Rewrite.{packed_ip, packed_port, swap_macs, readdress_ip, readdress_udp, readdress}
use bpf_broker.Rewrite.Udp.{ported}

module _ {A : Type 0} where
  set_twice : (l : List A) (i : ℕ) (a b : A) → set (set l i a) i b ≡ set l i b
  set_twice [] i a b = refl
  set_twice (x ∷ l) zero a b = refl
  set_twice (x ∷ l) (suc i) a b = ap (λ k. x ∷ k) (set_twice l i a b)

  set_comm : (l : List A) (i j : ℕ) (a b : A) → i ≢ j → set (set l i a) j b ≡ set (set l j b) i a
  set_comm [] i j a b n = refl
  set_comm (x ∷ l) zero zero a b n = absurd (n refl)
  set_comm (x ∷ l) zero (suc j) a b n = refl
  set_comm (x ∷ l) (suc i) zero a b n = refl
  set_comm (x ∷ l) (suc i) (suc j) a b n = ap (λ k. x ∷ k) (set_comm l i j a b (λ e. n (ap suc e)))

store16_twice : (f : Frame) (o v w : ℕ) → store16 (store16 f o v) o w ≡ store16 f o w
unfolding store16 store8
store16_twice f o v w =
    let low = set f o (v % 256) in
    ap (λ (k : Frame). set k (o + 1) (w / 256 % 256))
      (set_comm low (o + 1) o (v / 256 % 256) (w % 256) (omega arith))
    ∙ set_twice (set low o (w % 256)) (o + 1) (v / 256 % 256) (w / 256 % 256)
    ∙ ap (λ (k : Frame). set k (o + 1) (w / 256 % 256)) (set_twice f o (v % 256) (w % 256))

-- Computing the checksum once more changes nothing.
pub with_checksum_twice :
    (checksum : Frame → ℕ → ℕ → ℕ) (f : Frame)
    → with_checksum checksum (with_checksum checksum f) ≡ with_checksum checksum f
with_checksum_twice checksum f =
    let cleared = store16 f udp_check 0 in
    ap (λ k. store16 k udp_check (checksum k ip_base udp_base))
      (store16_twice cleared udp_check (checksum cleared ip_base udp_base) 0
        ∙ store16_twice f udp_check 0 0)

pub readdress_checked :
    (checksum : Frame → ℕ → ℕ → ℕ) (f : Frame) (packed : ℕ)
    → with_checksum checksum (readdress checksum f packed) ≡ readdress checksum f packed
unfolding readdress readdress_udp
readdress_checked checksum f packed =
    with_checksum_twice checksum
      (ported checksum (readdress_ip (swap_macs f) (packed_ip packed)) (packed_port packed))
