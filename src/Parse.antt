-- ===== src/Parse.antt =====
-- Packet parsing of bpf_broker/bpf_broker_kern.c: parse_udp_packet, refresh_headers, starts_with
-- and extract_topic_id. The pointers that the first two set are the constant offsets of Frame, so a
-- call gives only whether it returned 0.
pub mod Headers
pub mod Prefix
pub mod Topic
use bpf_broker.Prelude.{
  ℕ, zero, suc, ◌+◌, ◌-◌, Bool, true, false, ◌||◌, not, ltb, leb, ◌==◌, if◌then◌else◌, length, set,
  replicate, List, [], ◌∷◌, Option, none, some,
}
use bpf_broker.Frame.{
  Frame, load8, load16, swap16, sizeof_ethhdr, sizeof_iphdr, sizeof_udphdr, eth_proto, ip_base,
  ip_protocol, udp_base, payload_base,
}

abbrev pub max_topic_id_chars : ℕ
max_topic_id_chars = 20

-- ETH_P_IP and IPPROTO_UDP
abbrev pub eth_p_ip : ℕ
eth_p_ip = 0x0800

abbrev pub ipproto_udp : ℕ
ipproto_udp = 17

abbrev pub Key : Type 0
Key = List ℕ

-- `(void *)(x + 1) > data_end`, for a structure of `size` bytes at offset `o`
abbrev pub beyond : Frame → ℕ → ℕ → Bool
beyond f o size = ltb (length f) (o + size)

unfoldable pub parse_udp_packet : Frame → Bool
parse_udp_packet f =
    if beyond f 0 sizeof_ethhdr
    then false
    else if not (load16 f eth_proto == swap16 eth_p_ip)
    then false
    else if beyond f ip_base sizeof_iphdr
    then false
    else if not (load8 f ip_protocol == ipproto_udp)
    then false
    else if beyond f udp_base sizeof_udphdr
    then false
    else if beyond f payload_base 1
    then false
    else true

unfoldable pub refresh_headers : Frame → Bool
refresh_headers f =
    if beyond f 0 sizeof_ethhdr
    then false
    else if not (load16 f eth_proto == swap16 eth_p_ip)
    then false
    else if beyond f ip_base sizeof_iphdr
    then false
    else if not (load8 f ip_protocol == ipproto_udp)
    then false
    else if beyond f udp_base sizeof_udphdr
    then false
    else true

-- The prefix is given by its characters, without the final NUL.
unfoldable pub starts_with : Frame → ℕ → List ℕ → Bool
starts_with f p [] = true
starts_with f p (c ∷ prefix) =
    if leb (length f) p || not (load8 f p == c) then false else starts_with f (p + 1) prefix

-- ' ', '\0' and '\n'
abbrev pub is_delimiter : ℕ → Bool
is_delimiter c = c == b' ' || (c == 0 || c == 10)

-- The loop at index `i`, with `n` rounds left; `none` is the return of -1.
unfoldable pub topic_loop : Frame → ℕ → ℕ → ℕ → Key → Option Key
topic_loop f s zero i out_id = some (set out_id (max_topic_id_chars - 1) 0)
topic_loop f s (suc n) i out_id =
    let c = load8 f (s + i) in
    let rest = topic_loop f s n (i + 1) (set out_id i c) in
    if ltb (length f) (s + i + 1)
    then none
    else if is_delimiter c
    then some (set out_id i 0)
    else rest

-- `out_id` is the caller's zeroed array.
unfoldable pub extract_topic_id : Frame → ℕ → Option Key
unfolding topic_loop
extract_topic_id f s = topic_loop f s max_topic_id_chars 0 (replicate max_topic_id_chars 0)

-- "PUBLISH "
abbrev pub publish : List ℕ
publish = b'P' ∷ b'U' ∷ b'B' ∷ b'L' ∷ b'I' ∷ b'S' ∷ b'H' ∷ b' ' ∷ []
