-- ===== src/Xdp.antt =====
-- xdp_broker of bpf_broker/bpf_broker_kern.c, the XDP program: a topic with a single subscriber is
-- served in place, all else goes up the stack.
pub mod Publish
pub mod Verdict
use bpf_broker.Prelude.{
  ℕ, ◌+◌, Bool, true, false, ◌||◌, not, ltb, ◌==◌, if◌then◌else◌, Option, none, some,
}
use bpf_broker.Frame.{Frame, u32, load16, swap16, udp_dest, payload_base}
use bpf_broker.Checksum.{compute_udp_checksum}
use bpf_broker.Parse.{Key, parse_udp_packet, starts_with, extract_topic_id, publish}
use bpf_broker.Rewrite.{readdress}

pub data XdpAction : Type 0 where
  pass drop tx : XdpAction

-- `bpf_map_lookup_elem` in the two maps that the program reads.
pub record Tables : Type 0 where
  pub topic_sub_cnt : Key → Option ℕ
  pub topic_first_sub : Key → Option ℕ

-- Entry 0 of the per-CPU counters; `none` is a lookup that gives NULL.
pub record Counters : Type 0 where
  pub pub_counter : Option ℕ
  pub clone_counter : Option ℕ

-- `if (p) __sync_fetch_and_add(p, 1)` on 32 bits
abbrev pub increment : Option ℕ → Option ℕ
increment none = none
increment (some n) = some (u32 (n + 1))

abbrev pub Result : Type 0
Result = XdpAction × Frame × Counters

-- `dport < 49152 || dport > 49167`
abbrev pub other_port : Frame → Bool
other_port f = let dport = swap16 (load16 f udp_dest) in ltb dport 49152 || ltb 49167 dport

-- The rest of the program, once the topic is known.
unfoldable pub forward : Tables → Counters → Frame → Key → Result
forward m s f topic_id = elim (m.topic_sub_cnt topic_id) [
  | none ↦ (pass, f, s)
  | some sub_count ↦
      if not (sub_count == 1) then (pass, f, s) else elim (m.topic_first_sub topic_id) [
        | none ↦ (drop, f, s)
        | some packed ↦ (
          tx,
          readdress compute_udp_checksum f packed,
          record s { clone_counter = increment s.clone_counter },
        )
      ]
]

unfoldable pub xdp_broker : Tables → Counters → Frame → Result
unfolding forward
xdp_broker m s f =
    if not (parse_udp_packet f)
    then (pass, f, s)
    else if other_port f
    then (pass, f, s)
    else if not (starts_with f payload_base publish)
    then (pass, f, s)
    else (let counted = record s { pub_counter = increment s.pub_counter } in
        elim (extract_topic_id f (payload_base + 8)) [
          | none ↦ (pass, f, counted)
          | some topic_id ↦ forward m counted f topic_id
        ])
