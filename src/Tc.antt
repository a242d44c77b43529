-- ===== src/Tc.antt =====
-- tc_ingress_broker and callback_fn of bpf_broker/bpf_broker_kern.c: the program behind the XDP
-- program, which clones a PUBLISH once for each subscriber of its topic.
pub mod Verdict
pub mod Fields
pub mod Broker
pub mod Clones
pub mod Serve
pub mod Forwards
use bpf_broker.Prelude.{
  ℕ, zero, suc, ◌+◌, Bool, true, false, not, if◌then◌else◌, List, [], ◌∷◌, ◌++◌, ◌%◌, ◌^◌, Option,
  none, some,
}
use bpf_broker.Frame.{
  Frame, load16, load32, store16, store32, ip_check, ip_saddr, ip_daddr, udp_source, udp_dest,
  udp_check, payload_base,
}
use bpf_broker.Parse.{Key, refresh_headers, starts_with, extract_topic_id, publish}
use bpf_broker.Rewrite.{swap_macs, packed_ip, packed_port}
use bpf_broker.Xdp.{increment, other_port}

-- The helpers of the kernel that change the packet; `none` is a negative return, which leaves it as
-- it is. The arguments of the two replacements are the offset, the old and the new value, and the
-- size with the flags.
pub record Helpers : Type 0 where
  pub skb_pull_data : Frame → Option Frame
  pub l3_csum_replace : Frame → ℕ → ℕ → ℕ → ℕ → Option Frame
  pub l4_csum_replace : Frame → ℕ → ℕ → ℕ → ℕ → Option Frame
  -- Whether the clone is sent.
  pub clone_redirect : Frame → Bool
  -- Whether a missing entry of queue_count_map can be made.
  pub queue_room : Bool

-- BPF_F_PSEUDO_HDR
abbrev pub pseudo_hdr : ℕ
pseudo_hdr = 16

-- The packet from `data` to `data_end`, the clones that were sent, in order, and the counters: the entry of queue_count_map is
-- that of the packet's queue.
pub record Skb : Type 0 where
  pub packet : Frame
  pub clones : List Frame
  pub queue_count : Option ℕ
  pub pub_counter : Option ℕ
  pub clone_counter : Option ℕ

pub data TcAction : Type 0 where
  act_ok act_shot : TcAction

-- A count of 64 bits.
abbrev pub count_queue : Bool → Option ℕ → Option ℕ
count_queue room none = if room then some 1 else none
count_queue room (some n) = some ((n + 1) % 2 ^ 64)

module _ (h : Helpers) where
  -- The last part of callback_fn: the counters and the clone.
  unfoldable pub send_clone : Skb → Skb
  send_clone s = record s {
    clones = s.clones ++ (if h.clone_redirect s.packet then s.packet ∷ [] else []);
    queue_count = count_queue h.queue_room s.queue_count;
    clone_counter = increment s.clone_counter;
  }

  -- From `udp->dest = dest_port_net` on.
  unfoldable pub replace_port : ℕ → ℕ → Skb → Skb
  unfolding send_clone
  replace_port packed old_port s =
      let f = store16 s.packet udp_dest (packed_port packed) in
      elim (h.l4_csum_replace f udp_check old_port (load16 f udp_dest) (2 + pseudo_hdr)) [
        | none ↦ record s { packet = f }
        | some g ↦
            if not (refresh_headers g)
            then record s { packet = g }
            else send_clone (record s { packet = g })
      ]

  -- From the replacement in the UDP checksum on.
  unfoldable pub replace_address : ℕ → ℕ → ℕ → Skb → Skb
  unfolding replace_port
  replace_address packed old_daddr old_port s =
      elim (h.l4_csum_replace s.packet udp_check old_daddr (load32 s.packet ip_daddr)
        (4 + pseudo_hdr)) [
          | none ↦ s
          | some g ↦
              if not (refresh_headers g)
              then record s { packet = g }
              else replace_port packed old_port (record s { packet = g })
        ]

  -- Every return is 0, which lets the iteration go on.
  unfoldable pub callback_fn : ℕ → Skb → Skb
  unfolding replace_address
  callback_fn packed s =
      if not (refresh_headers s.packet)
      then s
      else (let old_daddr = load32 s.packet ip_daddr in
          let old_port = load16 s.packet udp_dest in
          let f = store32 s.packet ip_daddr (packed_ip packed) in
          elim (h.l3_csum_replace f ip_check old_daddr (load32 f ip_daddr) 4) [
            | none ↦ record s { packet = f }
            | some g ↦
                if not (refresh_headers g)
                then record s { packet = g }
                else replace_address packed old_daddr old_port (record s { packet = g })
          ])

  -- `bpf_for_each_map_elem`, over the keys in the order of the iteration.
  unfoldable pub for_each_subscriber : List ℕ → Skb → Skb
  for_each_subscriber [] s = s
  for_each_subscriber (packed ∷ keys) s = for_each_subscriber keys (callback_fn packed s)

  -- From `udp->source = udp->dest` on.
  unfoldable pub serve_ports : List ℕ → Skb → TcAction × Skb
  unfolding for_each_subscriber
  serve_ports keys s =
      let temp_port = load16 s.packet udp_source in
      let f = store16 s.packet udp_source (load16 s.packet udp_dest) in
      elim (h.l4_csum_replace f udp_check temp_port (load16 f udp_source) (2 + pseudo_hdr)) [
        | none ↦ (act_ok, record s { packet = f })
        | some g ↦ (act_shot, for_each_subscriber keys (record s { packet = g }))
      ]

  -- The exchange of the addresses, once the topic is found.
  unfoldable pub serve : List ℕ → Skb → TcAction × Skb
  unfolding serve_ports
  serve keys s =
      let f1 = swap_macs s.packet in
      let temp_ip = load32 f1 ip_saddr in
      let f2 = store32 f1 ip_saddr (load32 f1 ip_daddr) in
      elim (h.l3_csum_replace f2 ip_check temp_ip (load32 f2 ip_saddr) 4) [
        | none ↦ (act_ok, record s { packet = f2 })
        | some f3 ↦
            if not (refresh_headers f3)
            then (act_ok, record s { packet = f3 })
            else elim (h.l4_csum_replace f3 udp_check temp_ip (load32 f3 ip_saddr)
                (4 + pseudo_hdr)) [
                  | none ↦ (act_ok, record s { packet = f3 })
                  | some f4 ↦
                      if not (refresh_headers f4)
                      then (act_ok, record s { packet = f4 })
                      else serve_ports keys (record s { packet = f4 })
                ]
      ]

  -- `topics` is topic_subscribe, with the keys of each inner map.
  unfoldable pub tc_ingress_broker : (Key → Option (List ℕ)) → Skb → TcAction × Skb
  unfolding serve
  tc_ingress_broker topics s = elim (h.skb_pull_data s.packet) [
    | none ↦ (act_ok, s)
    | some f ↦
        (let pulled = record s { packet = f } in
          if not (refresh_headers f)
          then (act_ok, pulled)
          else if other_port f
          then (act_ok, pulled)
          else if not (starts_with f payload_base publish)
          then (act_ok, pulled)
          else (let counted = record pulled { pub_counter = increment s.pub_counter } in
              elim (extract_topic_id f (payload_base + 8)) [
                | none ↦ (act_ok, counted)
                | some topic_id ↦ elim (topics topic_id) [
                  | none ↦ (act_ok, counted)
                  | some keys ↦ serve keys counted
                ]
              ]))
  ]
