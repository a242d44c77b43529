-- ===== src/CloneTx.antt =====
-- bpf_broker_xdp/bpf_broker_kern.c: the XDP program for a driver that runs it again on each clone
-- that XDP_CLONE_TX asked for. Its parsing routines are those of bpf_broker/bpf_broker_kern.c,
-- character for character, and are not written down twice.
pub mod Verdict
use bpf_broker.Prelude.{
  ℕ, ◌+◌, ◌-◌, ◌*◌, Bool, true, false, ◌||◌, not, ltb, ◌==◌, if◌then◌else◌, Option, none, some,
}
use bpf_broker.Frame.{Frame, u32, load16, swap16, udp_dest, payload_base}
use bpf_broker.Checksum.{udp_checksum}
use bpf_broker.Parse.{Key, parse_udp_packet, starts_with, extract_topic_id, publish}
use bpf_broker.Rewrite.{readdress}
use bpf_broker.Xdp.{increment, other_port}

abbrev pub xdp_drop : ℕ
xdp_drop = 1

abbrev pub xdp_pass : ℕ
xdp_pass = 2

abbrev pub xdp_tx : ℕ
xdp_tx = 3

-- `((int)(num_copy) << 5) | 6`, on 32 bits
abbrev pub xdp_clone_tx : ℕ → ℕ
xdp_clone_tx num_copy = u32 (num_copy * 32) + 6

-- The maps that the program reads; an inner array gives the subscriber at an index.
pub record CloneTables : Type 0 where
  pub topic_sub_cnt : Key → Option ℕ
  pub topic_sub_array : Key → Option (ℕ → Option ℕ)

-- The loop of compute_udp_checksum has 1024 rounds here.
abbrev pub clone_udp_checksum : Frame → ℕ → ℕ → ℕ
clone_udp_checksum = udp_checksum 1024

-- Copy number `num_copy` of a frame.
unfoldable pub clone_copy : CloneTables → ℕ → Frame → ℕ × Frame
clone_copy m num_copy f =
    if num_copy == 0
    then (xdp_drop, f)
    else if not (parse_udp_packet f)
    then (xdp_drop, f)
    else if other_port f
    then (xdp_drop, f)
    else if not (starts_with f payload_base publish)
    then (xdp_drop, f)
    else elim (extract_topic_id f (payload_base + 8)) [
      | none ↦ (xdp_drop, f)
      | some topic_id ↦ elim (m.topic_sub_array topic_id) [
        | none ↦ (xdp_drop, f)
        | some inner_map ↦ elim (inner_map (num_copy - 1)) [
          | none ↦ (xdp_drop, f)
          | some packed ↦ (xdp_tx, readdress clone_udp_checksum f packed)
        ]
      ]
    ]

-- The frame that arrived: what the program returns, and the counter of publishes.
unfoldable pub original : CloneTables → Option ℕ → Frame → ℕ × Option ℕ
original m pub_counter f =
    if not (parse_udp_packet f)
    then (xdp_pass, pub_counter)
    else if other_port f
    then (xdp_pass, pub_counter)
    else if not (starts_with f payload_base publish)
    then (xdp_pass, pub_counter)
    else (let counted = increment pub_counter in
        elim (extract_topic_id f (payload_base + 8)) [
          | none ↦ (xdp_pass, counted)
          | some topic_id ↦ elim (m.topic_sub_cnt topic_id) [
            | none ↦ (xdp_pass, counted)
            | some sub_count ↦
                if sub_count == 0 then (xdp_pass, counted) else (xdp_clone_tx sub_count, counted)
          ]
        ])

-- A driver's metadata holds the number of the copy; a frame without metadata is the original.
unfoldable pub clone_broker : CloneTables → Option ℕ → Option ℕ → Frame → ℕ × Frame × Option ℕ
unfolding clone_copy original
clone_broker m (some num_copy) pub_counter f =
    let (action, out) = clone_copy m num_copy f in (action, out, pub_counter)
clone_broker m none pub_counter f =
    let (action, counter) = original m pub_counter f in (action, f, counter)
