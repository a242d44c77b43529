-- ===== src/Parse/Prefix.antt =====
-- starts_with decides whether the bytes from `p` on begin with the prefix.
use bpf_broker.Prelude.{
  ℕ, zero, suc, ◌+◌, ◌<◌, ◌≡◌, ◌↔◌, refl, true, arith, length, take, drop, List, [], ◌∷◌,
}
use bpf_broker.Frame.{Frame, load8}
use bpf_broker.Parse.{starts_with}

-- The bytes from `p` on, by the byte at `p`.
pub drop-cons : (f : Frame) (p : ℕ) → p < length f → drop p f ≡ load8 f p ∷ drop (p + 1) f
unfolding load8
drop-cons [] p h = absurd (omega arith)
drop-cons (x ∷ f) zero h = refl
drop-cons (x ∷ f) (suc p) h = ground (arith, drop-cons f p)

pub drop-eq-nil : (f : Frame) (p : ℕ) → length f < p + 1 → drop p f ≡ []
drop-eq-nil [] zero h = refl
drop-eq-nil [] (suc p) h = refl
drop-eq-nil (x ∷ f) zero h = absurd (omega arith)
drop-eq-nil (x ∷ f) (suc p) h = drop-eq-nil f p (omega arith)

-- For every frame, offset and prefix: starts_with returns 1 exactly if the bytes of the frame from
-- the offset on begin with the prefix.
pub starts_with_iff :
    (prefix : List ℕ) (f : Frame) (p : ℕ)
    → (starts_with f p prefix ≡ true) ↔ (take (length prefix) (drop p f) ≡ prefix)
unfolding starts_with
starts_with_iff [] f p = ground arith
starts_with_iff (c ∷ prefix) f p =
    ground (arith, starts_with_iff prefix f (p + 1), drop-cons f p, drop-eq-nil f p)
