-- ===== src/Checksum/Sum.antt =====
-- The sum of 16-bit words that a receiver forms, and how a store changes it.
use bpf_broker.Prelude.{
  ℕ, zero, suc, ◌+◌, ◌*◌, ◌%◌, ◌/◌, ◌^◌, ◌≤◌, ◌<◌, ◌≡◌, ◌⊎◌, inl, inr, refl, ap, arith, length,
}
use bpf_broker.Frame.{Frame, load8, load16, store16, store32, IsBytes}
use bpf_broker.Frame.Words.{store32-halves, halves}
use bpf_broker.Frame.Access.{
  load16-lt, load16_ext, load16-store16_self, load16-store16_ne, length-store16,
}

-- The plain sum of the `n` words from offset `p` on.
unfoldable pub word_sum : Frame → ℕ → ℕ → ℕ
word_sum f p zero = 0
word_sum f p (suc n) = load16 f p + word_sum f (p + 2) n

-- RFC 1071: the one's complement sum of all words is all ones.
abbrev pub Verifies : ℕ → Type 0
Verifies total = (0 < total) × (total % 65535 ≡ 0)

pub word_sum-zero : (f : Frame) (p : ℕ) → word_sum f p 0 ≡ 0
unfolding word_sum
word_sum-zero f p = refl

pub word_sum-suc : (f : Frame) (p n : ℕ) → word_sum f p (suc n) ≡ load16 f p + word_sum f (p + 2) n
unfolding word_sum
word_sum-suc f p n = refl

pub word_sum-le : (f : Frame) → IsBytes f → (n p : ℕ) → word_sum f p n ≤ 65535 * n
unfolding word_sum
word_sum-le f b zero p = omega arith
word_sum-le f b (suc n) p = omega (arith, load16-lt f b p, word_sum-le f b n (p + 2))

-- The words split at any point.
pub word_sum-split :
    (f : Frame) (n m k p q : ℕ)
    → k ≡ n + m
    → q ≡ p + 2 * n
    → word_sum f p k ≡ word_sum f p n + word_sum f q m
unfolding word_sum
word_sum-split f zero m k p q e d =
    let e' : k ≡ m = omega arith in let d' : q ≡ p = omega arith in rw (e', d') (omega arith)
word_sum-split f (suc n) m zero p q e d = absurd (omega arith)
word_sum-split f (suc n) m (suc k) p q e d =
    omega (arith, word_sum-split f n m k (p + 2) q (omega arith) (omega arith))

-- Words apart from a stored field keep their sum.
pub word_sum-store16_ne :
    (f : Frame) (o v n p : ℕ)
    → (o + 2 ≤ p) ⊎ (p + 2 * n ≤ o)
    → word_sum (store16 f o v) p n ≡ word_sum f p n
unfolding word_sum
word_sum-store16_ne f o v zero p h = refl
word_sum-store16_ne f o v (suc n) p (inl h) = omega (
  arith,
  load16-store16_ne f o v p (inr h),
  word_sum-store16_ne f o v n (p + 2) (inl (omega arith)),
)
word_sum-store16_ne f o v (suc n) p (inr h) = omega (
  arith,
  load16-store16_ne f o v p (inl (omega arith)),
  word_sum-store16_ne f o v n (p + 2) (inr (omega arith)),
)

-- Storing one of the words exchanges it in the sum.
pub word_sum-store16 :
    (f : Frame) (k : ℕ) (o v n p : ℕ)
    → o ≡ p + 2 * k
    → k < n
    → o + 1 < length f
    → v < 65536
    → word_sum (store16 f o v) p n + load16 f o ≡ word_sum f p n + v
unfolding word_sum
word_sum-store16 f k o v zero p e h l fits = absurd (omega arith)
word_sum-store16 f zero o v (suc n) p e h l fits =
    let e' : o ≡ p = omega arith in
    omega (
      arith,
      load16-store16_self f o v l fits,
      word_sum-store16_ne f o v n (p + 2) (inl (omega arith)),
      ap (load16 (store16 f o v)) e',
      ap (load16 f) e',
    )
word_sum-store16 f (suc k) o v (suc n) p e h l fits = omega (
  arith,
  load16-store16_ne f o v p (inl (omega arith)),
  word_sum-store16 f k o v n (p + 2) (omega arith) (omega arith) l fits,
)

-- So does storing two neighbouring words.
pub word_sum-store32 :
    (f : Frame) (k : ℕ) (o v n p : ℕ)
    → o ≡ p + 2 * k
    → k + 1 < n
    → o + 3 < length f
    → v < 2 ^ 32
    → word_sum (store32 f o v) p n + (load16 f o + load16 f (o + 2)) ≡ word_sum f p n + halves v
word_sum-store32 f k o v n p e h l fits =
    let low = store16 f o (v % 65536) in
    rw (store32-halves f o v) (
      omega (
        arith,
        word_sum-store16 f k o (v % 65536) n p e (omega arith) (omega arith) (omega arith),
        word_sum-store16 low (k + 1) (o + 2) (v / 65536) n p (omega arith) h
            (omega (arith, length-store16 f o (v % 65536))) (omega arith),
        load16-store16_ne f o (v % 65536) (o + 2) (inr (omega arith)),
      ))

-- The sum is that of the bytes.
pub word_sum_ext :
    (f g : Frame) (n p : ℕ)
    → ((i : ℕ) → p ≤ i → i < p + 2 * n → load8 f i ≡ load8 g i)
    → word_sum f p n ≡ word_sum g p n
unfolding word_sum
word_sum_ext f g zero p h = refl
word_sum_ext f g (suc n) p h = omega (
  arith,
  load16_ext f g p (h p (omega arith) (omega arith)) (h (p + 1) (omega arith) (omega arith)),
  word_sum_ext f g n (p + 2) (λ i a b. h i (omega arith) (omega arith)),
)
