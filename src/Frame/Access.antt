-- ===== src/Frame/Access.antt =====
-- What loads give after stores, and what stores keep.
use bpf_broker.Prelude.{
  ℕ, ◌+◌, ◌/◌, ◌%◌, ◌^◌, ◌≤◌, ◌<◌, ◌≡◌, ◌≢◌, ◌∙◌, ◌⊎◌, inl, inr, arith, length, length-set, get_or,
  set, get_or-set_self, get_or-set_ne, zero, suc, All, [], ◌∷◌,
}
use bpf_broker.Frame.{Frame, load8, load16, load32, store8, store16, store32, IsBytes}

module _ (f : Frame) (o v : ℕ) where
  pub length-store8 : length (store8 f o v) ≡ length f
  unfolding store8
  length-store8 = length-set f o (v % 256)

pub length-store16 : (f : Frame) (o v : ℕ) → length (store16 f o v) ≡ length f
unfolding store16
length-store16 f o v = length-store8 (store8 f o v) (o + 1) (v / 256) ∙ length-store8 f o v

pub length-store32 : (f : Frame) (o v : ℕ) → length (store32 f o v) ≡ length f
unfolding store32
length-store32 f o v = length-store16 (store16 f o v) (o + 2) (v / 65536) ∙ length-store16 f o v

pub load8-store8_self : (f : Frame) (o v : ℕ) → o < length f → load8 (store8 f o v) o ≡ v % 256
unfolding load8 store8
load8-store8_self f o v h = get_or-set_self f o (v % 256) 0 h

pub load8-store8_ne : (f : Frame) (o v i : ℕ) → o ≢ i → load8 (store8 f o v) i ≡ load8 f i
unfolding load8 store8
load8-store8_ne f o v i h = get_or-set_ne f o i (v % 256) 0 h

-- A byte outside the stored field is kept.
pub load8-store16_ne :
    (f : Frame) (o v i : ℕ) → (i < o) ⊎ (o + 2 ≤ i) → load8 (store16 f o v) i ≡ load8 f i
unfolding store16
load8-store16_ne f o v i h =
    load8-store8_ne (store8 f o v) (o + 1) (v / 256) i (λ e. omega arith)
    ∙ load8-store8_ne f o v i (λ e. omega arith)

pub load8-store16_low : (f : Frame) (o v : ℕ) → o < length f → load8 (store16 f o v) o ≡ v % 256
unfolding store16
load8-store16_low f o v h =
    load8-store8_ne (store8 f o v) (o + 1) (v / 256) o (λ e. omega arith)
    ∙ load8-store8_self f o v h

pub load8-store16_high :
    (f : Frame) (o v : ℕ) → o + 1 < length f → load8 (store16 f o v) (o + 1) ≡ v / 256 % 256
unfolding store16
load8-store16_high f o v h =
    load8-store8_self (store8 f o v) (o + 1) (v / 256) (omega (arith, length-store8 f o v))

pub load16-store16_self :
    (f : Frame) (o v : ℕ) → o + 1 < length f → v < 65536 → load16 (store16 f o v) o ≡ v
unfolding load16
load16-store16_self f o v h fits =
    omega (arith, load8-store16_low f o v (omega arith), load8-store16_high f o v h)

pub load16-store16_ne :
    (f : Frame) (o v i : ℕ) → (i + 2 ≤ o) ⊎ (o + 2 ≤ i) → load16 (store16 f o v) i ≡ load16 f i
unfolding load16
load16-store16_ne f o v i (inl h) = omega (
  arith,
  load8-store16_ne f o v i (inl (omega arith)),
  load8-store16_ne f o v (i + 1) (inl (omega arith)),
)
load16-store16_ne f o v i (inr h) = omega (
  arith,
  load8-store16_ne f o v i (inr (omega arith)),
  load8-store16_ne f o v (i + 1) (inr (omega arith)),
)

pub load16-lt : (f : Frame) → IsBytes f → (o : ℕ) → load16 f o < 65536
unfolding load16
load16-lt f b o = omega (arith, b o, b (o + 1))

set-IsBytes :
    (f : Frame) (o v i : ℕ)
    → v < 256
    → ((j : ℕ) → get_or f j 0 < 256)
    → get_or (set f o v) i 0 < 256
set-IsBytes [] o v i h b = b i
set-IsBytes (x ∷ f) zero v zero h b = h
set-IsBytes (x ∷ f) zero v (suc i) h b = b (suc i)
set-IsBytes (x ∷ f) (suc o) v zero h b = b 0
set-IsBytes (x ∷ f) (suc o) v (suc i) h b = set-IsBytes f o v i h (λ j. b (suc j))

pub store8-IsBytes : (f : Frame) (o v : ℕ) → IsBytes f → IsBytes (store8 f o v)
unfolding load8 store8
store8-IsBytes f o v b i = set-IsBytes f o (v % 256) i (omega arith) b

pub store16-IsBytes : (f : Frame) (o v : ℕ) → IsBytes f → IsBytes (store16 f o v)
unfolding store16
store16-IsBytes f o v b = store8-IsBytes (store8 f o v) (o + 1) (v / 256) (store8-IsBytes f o v b)

pub store32-IsBytes : (f : Frame) (o v : ℕ) → IsBytes f → IsBytes (store32 f o v)
unfolding store32
store32-IsBytes f o v b =
    store16-IsBytes (store16 f o v) (o + 2) (v / 65536) (store16-IsBytes f o v b)

-- A 16-bit field that lies apart from a 32-bit store is kept.
pub load16-store32_ne :
    (f : Frame) (o v i : ℕ) → (i + 2 ≤ o) ⊎ (o + 4 ≤ i) → load16 (store32 f o v) i ≡ load16 f i
unfolding store32
load16-store32_ne f o v i (inl h) =
    load16-store16_ne (store16 f o v) (o + 2) (v / 65536) i (inl (omega arith))
    ∙ load16-store16_ne f o v i (inl h)
load16-store32_ne f o v i (inr h) =
    load16-store16_ne (store16 f o v) (o + 2) (v / 65536) i (inr (omega arith))
    ∙ load16-store16_ne f o v i (inr (omega arith))

pub load8-store32_ne :
    (f : Frame) (o v i : ℕ) → (i < o) ⊎ (o + 4 ≤ i) → load8 (store32 f o v) i ≡ load8 f i
unfolding store32
load8-store32_ne f o v i (inl h) =
    load8-store16_ne (store16 f o v) (o + 2) (v / 65536) i (inl (omega arith))
    ∙ load8-store16_ne f o v i (inl h)
load8-store32_ne f o v i (inr h) =
    load8-store16_ne (store16 f o v) (o + 2) (v / 65536) i (inr (omega arith))
    ∙ load8-store16_ne f o v i (inr (omega arith))

-- The halves of a stored 32-bit field.
pub load16-store32_low :
    (f : Frame) (o v : ℕ) → o + 3 < length f → load16 (store32 f o v) o ≡ v % 65536
unfolding store32 load16
load16-store32_low f o v h = omega (
  arith,
  load8-store16_ne (store16 f o v) (o + 2) (v / 65536) o (inl (omega arith)),
  load8-store16_ne (store16 f o v) (o + 2) (v / 65536) (o + 1) (inl (omega arith)),
  load8-store16_low f o v (omega arith),
  load8-store16_high f o v (omega arith),
)

pub load16-store32_high :
    (f : Frame) (o v : ℕ) → o + 3 < length f → load16 (store32 f o v) (o + 2) ≡ v / 65536 % 65536
unfolding store32 load16
load16-store32_high f o v h = omega (
  arith,
  load8-store16_low (store16 f o v) (o + 2) (v / 65536) (omega (arith, length-store16 f o v)),
  load8-store16_high (store16 f o v) (o + 2) (v / 65536) (omega (arith, length-store16 f o v)),
)

pub load32-store32_self :
    (f : Frame) (o v : ℕ) → o + 3 < length f → v < 2 ^ 32 → load32 (store32 f o v) o ≡ v
unfolding load32
load32-store32_self f o v h fits =
    omega (arith, load16-store32_low f o v h, load16-store32_high f o v h)

-- Fields are determined by their bytes.
pub load16_ext :
    (f g : Frame) (o : ℕ)
    → load8 f o ≡ load8 g o
    → load8 f (o + 1) ≡ load8 g (o + 1)
    → load16 f o ≡ load16 g o
unfolding load16
load16_ext f g o low high = omega arith

pub load32-lt : (f : Frame) → IsBytes f → (o : ℕ) → load32 f o < 2 ^ 32
unfolding load32
load32-lt f b o = omega (arith, load16-lt f b o, load16-lt f b (o + 2))

pub load32-store16_ne :
    (f : Frame) (o v i : ℕ) → (i + 4 ≤ o) ⊎ (o + 2 ≤ i) → load32 (store16 f o v) i ≡ load32 f i
unfolding load32
load32-store16_ne f o v i (inl h) = omega (
  arith,
  load16-store16_ne f o v i (inl (omega arith)),
  load16-store16_ne f o v (i + 2) (inl (omega arith)),
)
load32-store16_ne f o v i (inr h) = omega (
  arith,
  load16-store16_ne f o v i (inr (omega arith)),
  load16-store16_ne f o v (i + 2) (inr (omega arith)),
)

pub load32-store32_below :
    (f : Frame) (o v i : ℕ) → i + 4 ≤ o → load32 (store32 f o v) i ≡ load32 f i
unfolding load32
load32-store32_below f o v i h = omega (
  arith,
  load16-store32_ne f o v i (inl (omega arith)),
  load16-store32_ne f o v (i + 2) (inl (omega arith)),
)

pub load32_ext :
    (f g : Frame) (o : ℕ)
    → ((i : ℕ) → o ≤ i → i < o + 4 → load8 f i ≡ load8 g i)
    → load32 f o ≡ load32 g o
unfolding load32 load16
load32_ext f g o h = omega (
  arith,
  h o (omega arith) (omega arith),
  h (o + 1) (omega arith) (omega arith),
  h (o + 2) (omega arith) (omega arith),
  h (o + 2 + 1) (omega arith) (omega arith),
)

-- A list of bytes is a frame of bytes.
pub IsBytes-of_All : (f : Frame) → All (λ c. c < 256) f → IsBytes f
unfolding load8
IsBytes-of_All [] h i = omega arith
IsBytes-of_All (x ∷ f) h zero = h.0
IsBytes-of_All (x ∷ f) h (suc i) = IsBytes-of_All f h.1 i
