-- ===== src/Frame.antt =====
-- A frame in memory, as bpf_broker/bpf_broker_kern.c reads and writes it: the bytes from `data` to
-- `data_end`. A multi-byte field is the little-endian number that a load on the host gives.
pub mod Access
pub mod Words
use bpf_broker.Prelude.{ℕ, ◌+◌, ◌*◌, ◌/◌, ◌%◌, ◌^◌, ◌<◌, List, get_or, set}

abbrev pub Frame : Type 0
Frame = List ℕ

abbrev pub u16 : ℕ → ℕ
u16 n = n % 2 ^ 16

abbrev pub u32 : ℕ → ℕ
u32 n = n % 2 ^ 32

unfoldable pub load8 : Frame → ℕ → ℕ
load8 f o = get_or f o 0

unfoldable pub load16 : Frame → ℕ → ℕ
load16 f o = load8 f o + 256 * load8 f (o + 1)

unfoldable pub load32 : Frame → ℕ → ℕ
load32 f o = load16 f o + 65536 * load16 f (o + 2)

unfoldable pub store8 : Frame → ℕ → ℕ → Frame
store8 f o v = set f o (v % 256)

unfoldable pub store16 : Frame → ℕ → ℕ → Frame
store16 f o v = store8 (store8 f o v) (o + 1) (v / 256)

unfoldable pub store32 : Frame → ℕ → ℕ → Frame
store32 f o v = store16 (store16 f o v) (o + 2) (v / 65536)

-- `bpf_ntohs` and `bpf_htons` on a little-endian host.
abbrev pub swap16 : ℕ → ℕ
swap16 v = v % 256 * 256 + v / 256 % 256

-- Sizes and offsets of `struct ethhdr`, `struct iphdr` and `struct udphdr`, one after the other.
abbrev pub sizeof_ethhdr : ℕ
sizeof_ethhdr = 14

abbrev pub sizeof_iphdr : ℕ
sizeof_iphdr = 20

abbrev pub sizeof_udphdr : ℕ
sizeof_udphdr = 8

abbrev pub eth_dest : ℕ
eth_dest = 0

abbrev pub eth_source : ℕ
eth_source = 6

abbrev pub eth_proto : ℕ
eth_proto = 12

abbrev pub ip_base : ℕ
ip_base = 14

abbrev pub ip_protocol : ℕ
ip_protocol = 23

abbrev pub ip_check : ℕ
ip_check = 24

abbrev pub ip_saddr : ℕ
ip_saddr = 26

abbrev pub ip_daddr : ℕ
ip_daddr = 30

abbrev pub udp_base : ℕ
udp_base = 34

abbrev pub udp_source : ℕ
udp_source = 34

abbrev pub udp_dest : ℕ
udp_dest = 36

abbrev pub udp_length : ℕ
udp_length = 38

abbrev pub udp_check : ℕ
udp_check = 40

abbrev pub payload_base : ℕ
payload_base = 42

-- Every element of the frame is a byte.
abbrev pub IsBytes : Frame → Type 0
IsBytes f = (i : ℕ) → load8 f i < 256
