-- ===== src/Frame/Words.antt =====
-- A store of 32 bits as two stores of 16.
use bpf_broker.Prelude.{ℕ, ◌+◌, ◌/◌, ◌%◌, ◌≡◌, ap₂, ap, arith, set}
use bpf_broker.Frame.{Frame, load16, load32, store8, store16, store32, IsBytes}
use bpf_broker.Frame.Access.{load16-lt}

-- A store takes the low 16 bits.
store16-mod : (f : Frame) (o v : ℕ) → store16 f o v ≡ store16 f o (v % 65536)
unfolding store16 store8
store16-mod f o v =
    let low : v % 256 ≡ v % 65536 % 256 = omega arith in
    let high : v / 256 % 256 ≡ v % 65536 / 256 % 256 = omega arith in
    ap₂ (λ (a b : ℕ). set (set f o a) (o + 1) b) low high

pub store32-halves :
    (f : Frame) (o v : ℕ) → store32 f o v ≡ store16 (store16 f o (v % 65536)) (o + 2) (v / 65536)
unfolding store32
store32-halves f o v = ap (λ g. store16 g (o + 2) (v / 65536)) (store16-mod f o v)

-- The two words of a number of 32 bits, added.
abbrev pub halves : ℕ → ℕ
halves v = v % 65536 + v / 65536

pub halves-load32 :
    (f : Frame) → IsBytes f → (o : ℕ) → halves (load32 f o) ≡ load16 f o + load16 f (o + 2)
unfolding load32
halves-load32 f b o = omega (arith, load16-lt f b o, load16-lt f b (o + 2))
