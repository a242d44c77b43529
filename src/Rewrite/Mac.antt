-- ===== src/Rewrite/Mac.antt =====
-- swap_macs exchanges the two addresses and touches nothing else.
use bpf_broker.Prelude.{
  ℕ, zero, suc, ◌+◌, ◌≤◌, ◌<◌, ◌≡◌, ◌∙◌, ◌⊎◌, inl, inr, refl, arith, length, All, List, [], ◌∷◌, ap,
  ap₂,
}
use bpf_broker.Frame.{Frame, load8, store8, IsBytes, eth_dest, eth_source}
use bpf_broker.Frame.Access.{length-store8, load8-store8_self, load8-store8_ne, store8-IsBytes}
use bpf_broker.Rewrite.{read_bytes, write_bytes, swap_macs}

length-read_bytes : (f : Frame) (n o : ℕ) → length (read_bytes f n o) ≡ n
unfolding read_bytes
length-read_bytes f zero o = refl
length-read_bytes f (suc n) o = ap suc (length-read_bytes f n (o + 1))

read_bytes-All : (f : Frame) → IsBytes f → (n o : ℕ) → All (λ c. c < 256) (read_bytes f n o)
unfolding read_bytes
read_bytes-All f b zero o = tt
read_bytes-All f b (suc n) o = (b o, read_bytes-All f b n (o + 1))

pub read_bytes_ext :
    (f g : Frame) (n o : ℕ)
    → ((i : ℕ) → o ≤ i → i < o + n → load8 f i ≡ load8 g i)
    → read_bytes f n o ≡ read_bytes g n o
unfolding read_bytes
read_bytes_ext f g zero o h = refl
read_bytes_ext f g (suc n) o h = cc (
  h o (omega arith) (omega arith),
  read_bytes_ext f g n (o + 1) (λ i p q. h i (omega arith) (omega arith)),
)

length-write_bytes : (bs : List ℕ) (f : Frame) (o : ℕ) → length (write_bytes f o bs) ≡ length f
unfolding write_bytes
length-write_bytes [] f o = refl
length-write_bytes (c ∷ bs) f o = length-write_bytes bs (store8 f o c) (o + 1) ∙ length-store8 f o c

write_bytes-IsBytes : (bs : List ℕ) (f : Frame) (o : ℕ) → IsBytes f → IsBytes (write_bytes f o bs)
unfolding write_bytes
write_bytes-IsBytes [] f o b = b
write_bytes-IsBytes (c ∷ bs) f o b =
    write_bytes-IsBytes bs (store8 f o c) (o + 1) (store8-IsBytes f o c b)

load8-write_bytes_ne :
    (bs : List ℕ) (f : Frame) (o i : ℕ)
    → (i < o) ⊎ (o + length bs ≤ i)
    → load8 (write_bytes f o bs) i ≡ load8 f i
unfolding write_bytes
load8-write_bytes_ne [] f o i h = refl
load8-write_bytes_ne (c ∷ bs) f o i (inl h) =
    load8-write_bytes_ne bs (store8 f o c) (o + 1) i (inl (omega arith))
    ∙ load8-store8_ne f o c i (λ e. omega arith)
load8-write_bytes_ne (c ∷ bs) f o i (inr h) =
    load8-write_bytes_ne bs (store8 f o c) (o + 1) i (inr (omega arith))
    ∙ load8-store8_ne f o c i (λ e. omega arith)

-- What is written is read back.
read_bytes-write_bytes :
    (bs : List ℕ) (f : Frame) (o n : ℕ)
    → n ≡ length bs
    → All (λ c. c < 256) bs
    → o + length bs ≤ length f
    → read_bytes (write_bytes f o bs) n o ≡ bs
unfolding read_bytes write_bytes
read_bytes-write_bytes [] f o zero e a room = refl
read_bytes-write_bytes [] f o (suc n) e a room = absurd (omega arith)
read_bytes-write_bytes (c ∷ bs) f o zero e a room = absurd (omega arith)
read_bytes-write_bytes (c ∷ bs) f o (suc n) e a room =
    ap₂ ◌∷◌
      (omega (
        arith,
        load8-write_bytes_ne bs (store8 f o c) (o + 1) o (inl (omega arith)),
        load8-store8_self f o c (omega arith),
        a.0,
      ))
      (read_bytes-write_bytes bs (store8 f o c) (o + 1) n (omega arith) a.1
        (omega (arith, length-store8 f o c)))

module _ (f : Frame) where
  pub length-swap_macs : length (swap_macs f) ≡ length f
  unfolding swap_macs
  length-swap_macs =
      length-write_bytes (read_bytes f 6 eth_source) with_source eth_dest
      ∙ length-write_bytes (read_bytes f 6 eth_dest) f eth_source
    where
      with_source : Frame
      with_source = write_bytes f eth_source (read_bytes f 6 eth_dest)

  pub swap_macs-IsBytes : IsBytes f → IsBytes (swap_macs f)
  unfolding swap_macs
  swap_macs-IsBytes b =
      write_bytes-IsBytes (read_bytes f 6 eth_source)
        (write_bytes f eth_source (read_bytes f 6 eth_dest)) eth_dest
        (write_bytes-IsBytes (read_bytes f 6 eth_dest) f eth_source b)

  -- Nothing behind the two addresses changes.
  pub load8-swap_macs : (i : ℕ) → 12 ≤ i → load8 (swap_macs f) i ≡ load8 f i
  unfolding swap_macs
  load8-swap_macs i h =
      load8-write_bytes_ne (read_bytes f 6 eth_source)
        (write_bytes f eth_source (read_bytes f 6 eth_dest)) eth_dest i
        (inr (omega (arith, length-read_bytes f 6 eth_source)))
      ∙ load8-write_bytes_ne (read_bytes f 6 eth_dest) f eth_source i
          (inr (omega (arith, length-read_bytes f 6 eth_dest)))

  module _ (b : IsBytes f) (room : 12 ≤ length f) where
    pub read_bytes-swap_macs_dest : read_bytes (swap_macs f) 6 eth_dest ≡ read_bytes f 6 eth_source
    unfolding swap_macs
    read_bytes-swap_macs_dest =
        let f1 = write_bytes f eth_source (read_bytes f 6 eth_dest) in
        let temp = read_bytes f 6 eth_source in
        read_bytes-write_bytes temp f1 eth_dest 6 (omega (arith, length-read_bytes f 6 eth_source))
          (read_bytes-All f b 6 eth_source)
          (omega (
            arith,
            length-read_bytes f 6 eth_source,
            length-write_bytes (read_bytes f 6 eth_dest) f eth_source,
          ))

    pub read_bytes-swap_macs_source :
        read_bytes (swap_macs f) 6 eth_source ≡ read_bytes f 6 eth_dest
    unfolding swap_macs
    read_bytes-swap_macs_source =
        let f1 = write_bytes f eth_source (read_bytes f 6 eth_dest) in
        let temp = read_bytes f 6 eth_source in
        read_bytes_ext (write_bytes f1 eth_dest temp) f1 6 eth_source (λ i p q.
          load8-write_bytes_ne temp f1 eth_dest i
            (inr (omega (arith, length-read_bytes f 6 eth_source))))
        ∙ read_bytes-write_bytes (read_bytes f 6 eth_dest) f eth_source 6
            (omega (arith, length-read_bytes f 6 eth_dest)) (read_bytes-All f b 6 eth_dest)
            (omega (arith, length-read_bytes f 6 eth_dest))
