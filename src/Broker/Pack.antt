-- ===== src/Broker/Pack.antt =====
-- The 64 bits of a subscriber: what add_subscriber packs, readdress unpacks.
use bpf_broker.Prelude.{ℕ, ◌+◌, ◌*◌, ◌/◌, ◌%◌, ◌^◌, ◌<◌, ◌≡◌, sym, ap, ◌∙◌, arith}
use bpf_broker.Frame.{swap16}
use bpf_broker.Rewrite.{packed_ip, packed_port}
use bpf_broker.Proto.Text.{swap32, pack}

swap16-swap16 : (v : ℕ) → v < 65536 → swap16 (swap16 v) ≡ v
swap16-swap16 v h = omega arith

swap16_lt : (v : ℕ) → swap16 v < 65536
swap16_lt v = omega arith

swap32-halves :
    (a b : ℕ) → a < 65536 → b < 65536 → swap32 (b * 65536 + a) ≡ swap16 a * 65536 + swap16 b
unfolding swap32
swap32-halves a b ha hb =
    let low : (b * 65536 + a) % 65536 ≡ a = omega arith in
    let high : (b * 65536 + a) / 65536 ≡ b = omega arith in rw (low, high)

swap32-swap32 : (v : ℕ) → v < 2 ^ 32 → swap32 (swap32 v) ≡ v
swap32-swap32 v h =
    let a : ℕ = v % 65536 in
    let b : ℕ = v / 65536 in
    let ha : a < 65536 = omega arith in
    let hb : b < 65536 = omega arith in
    let whole : v ≡ b * 65536 + a = omega arith in
    ap (λ (w : ℕ). swap32 (swap32 w)) whole
    ∙ ap swap32 (swap32-halves a b ha hb)
    ∙ swap32-halves (swap16 b) (swap16 a) (swap16_lt b) (swap16_lt a)
    ∙ ap (λ (w : ℕ). w * 65536 + swap16 (swap16 a)) (swap16-swap16 b hb)
    ∙ ap (λ (w : ℕ). b * 65536 + w) (swap16-swap16 a ha)
    ∙ sym whole

-- The handler's `add_subscriber(..., ntohl(client.sin_addr.s_addr), ntohs(client.sin_port))`, in
-- the fields that recvfrom has stored.
pub pack_client :
    (addr port : ℕ)
    → addr < 2 ^ 32
    → port < 2 ^ 16
    → pack (swap32 addr) (swap16 port) ≡ addr * 2 ^ 32 + port * 2 ^ 16
unfolding pack
pack_client addr port a p =
    let ip = swap32-swap32 addr a in
    let low : swap16 port % 65536 ≡ swap16 port = omega arith in
    let back = swap16-swap16 port p in rw (ip, low, back)

-- For an address below 2 ^ 32 and a port below 2 ^ 16, both in network order: the 64 bits that the
-- service packs after ntohl and ntohs give both back to xdp_broker, and are below 2 ^ 64.
pub packed_pack :
    (addr port : ℕ)
    → addr < 2 ^ 32
    → port < 2 ^ 16
    → (packed_ip (pack (swap32 addr) (swap16 port)) ≡ addr)
      × (packed_port (pack (swap32 addr) (swap16 port)) ≡ port)
      × (pack (swap32 addr) (swap16 port) < 2 ^ 64)
packed_pack addr port a p = rw (pack_client addr port a p) (omega arith, omega arith, omega arith)
