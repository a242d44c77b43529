-- ===== src/Tc/Verdict.antt =====
-- What tc_ingress_broker takes off the stack, and how many clones it sends.
use bpf_broker.Prelude.{
  ℕ, ◌+◌, ◌≤◌, ◌≡◌, arith, true, false, Bool-cases, Option-cases, inl, inr, some, Option, List, [],
  ◌∷◌, length, length-append,
}
use bpf_broker.Frame.{
  Frame, load16, load32, store16, store32, ip_check, ip_saddr, ip_daddr, udp_source, udp_dest,
  udp_check, payload_base,
}
use bpf_broker.Rewrite.{swap_macs, packed_ip, packed_port}
use bpf_broker.Parse.{Key, refresh_headers, starts_with, extract_topic_id, publish}
use bpf_broker.Parse.Headers.{refresh_headers_iff, parse_udp_packet_iff}
use bpf_broker.Xdp.{other_port, increment}
use bpf_broker.Xdp.Publish.{IsCommand, IsPublish, guards-IsCommand, extract_topic_id-IsPublish}
use bpf_broker.Tc.{
  Helpers, Skb, pseudo_hdr, act_ok, act_shot, send_clone, replace_port, replace_address,
  callback_fn, for_each_subscriber, serve_ports, serve, tc_ingress_broker,
}

module _ (h : Helpers) where
  send_clone-length : (s : Skb) → length (send_clone h s).clones ≤ length s.clones + 1
  unfolding send_clone
  send_clone-length s = elim (Bool-cases (h.clone_redirect s.packet)) [
    | inl e ↦ ground (arith, length-append s.clones (s.packet ∷ []))
    | inr e ↦ ground (arith, length-append s.clones [])
  ]

  replace_port-length :
      (packed old_port : ℕ) (s : Skb)
      → length (replace_port h packed old_port s).clones ≤ length s.clones + 1
  unfolding replace_port
  replace_port-length packed old_port s =
      let f = store16 s.packet udp_dest (packed_port packed) in
      elim (Option-cases
        (h.l4_csum_replace f udp_check old_port (load16 f udp_dest) (2 + pseudo_hdr))) [
          | inl e ↦ ground arith
          | inr (g, e) ↦ let sent = send_clone-length (record s { packet = g }) in ground arith
        ]

  replace_address-length :
      (packed old_daddr old_port : ℕ) (s : Skb)
      → length (replace_address h packed old_daddr old_port s).clones ≤ length s.clones + 1
  unfolding replace_address
  replace_address-length packed old_daddr old_port s =
      elim (Option-cases (
        h.l4_csum_replace s.packet udp_check old_daddr (load32 s.packet ip_daddr)
          (4 + pseudo_hdr))) [
            | inl e ↦ ground arith
            | inr (g, e) ↦
                let sent = replace_port-length packed old_port (record s { packet = g }) in
                ground arith
          ]

  callback_fn-length :
      (packed : ℕ) (s : Skb) → length (callback_fn h packed s).clones ≤ length s.clones + 1
  unfolding callback_fn
  callback_fn-length packed s =
      let f = store32 s.packet ip_daddr (packed_ip packed) in
      elim (Option-cases
        (h.l3_csum_replace f ip_check (load32 s.packet ip_daddr) (load32 f ip_daddr) 4)) [
          | inl e ↦ ground arith
          | inr (g, e) ↦
              let sent =
                replace_address-length packed (load32 s.packet ip_daddr) (load16 s.packet udp_dest)
                  (record s { packet = g }) in
              ground arith
        ]

  -- The iteration sends at most one clone for each key.
  for_each_subscriber-length :
      (keys : List ℕ) (s : Skb)
      → length (for_each_subscriber h keys s).clones ≤ length s.clones + length keys
  unfolding for_each_subscriber
  for_each_subscriber-length [] s = omega arith
  for_each_subscriber-length (packed ∷ keys) s =
      omega (
        arith,
        callback_fn-length packed s,
        for_each_subscriber-length keys (callback_fn h packed s),
      )

  serve_ports-length :
      (keys : List ℕ) (s : Skb)
      → length (serve_ports h keys s).1.clones ≤ length s.clones + length keys
  unfolding serve_ports
  serve_ports-length keys s =
      let f = store16 s.packet udp_source (load16 s.packet udp_dest) in
      elim (Option-cases (
        h.l4_csum_replace f udp_check (load16 s.packet udp_source) (load16 f udp_source)
          (2 + pseudo_hdr))) [
            | inl e ↦ ground arith
            | inr (g, e) ↦
                let sent = for_each_subscriber-length keys (record s { packet = g }) in ground arith
          ]

  serve-length :
      (keys : List ℕ) (s : Skb) → length (serve h keys s).1.clones ≤ length s.clones + length keys
  unfolding serve
  serve-length keys s =
      let f1 = swap_macs s.packet in
      let f2 = store32 f1 ip_saddr (load32 f1 ip_daddr) in
      elim (Option-cases
        (h.l3_csum_replace f2 ip_check (load32 f1 ip_saddr) (load32 f2 ip_saddr) 4)) [
          | inl e ↦ ground arith
          | inr (f3, e) ↦
              elim (Option-cases (
                h.l4_csum_replace f3 udp_check (load32 f1 ip_saddr) (load32 f3 ip_saddr)
                  (4 + pseudo_hdr))) [
                    | inl e4 ↦ ground arith
                    | inr (f4, e4) ↦
                        let sent = serve_ports-length keys (record s { packet = f4 }) in
                        ground arith
                  ]
        ]

-- The headers and the command together are what parse_udp_packet asks for.
guards_of_IsCommand :
    (f : Frame)
    → refresh_headers f ≡ true
    → other_port f ≡ false
    → starts_with f payload_base publish ≡ true
    → IsCommand f
unfolding starts_with
guards_of_IsCommand f r o p =
    let u = (refresh_headers_iff f).0 r in
    guards-IsCommand f
      ((parse_udp_packet_iff f).1
        (record { room = ground arith; ethertype = u.ethertype; protocol = u.protocol }))
      o p

module _ (h : Helpers) (topics : Key → Option (List ℕ)) (s : Skb) where
  -- What happens to a packet that the program does not serve, and to one that it serves.
  data Run : Type 0 where
    left :
        (tc_ingress_broker h topics s).0 ≡ act_ok
        → (tc_ingress_broker h topics s).1.clones ≡ s.clones
        → Run
    served :
        (f : Frame) (key : Key) (keys : List ℕ)
        → h.skb_pull_data s.packet ≡ some f
        → IsPublish f key
        → topics key ≡ some keys
        → tc_ingress_broker h topics s
          ≡ serve h keys (record s { packet = f; pub_counter = increment s.pub_counter })
        → Run

  run : Run
  unfolding tc_ingress_broker
  run = elim (Option-cases (h.skb_pull_data s.packet)) [
    | inl e ↦ left (ground arith) (ground arith)
    | inr (f, e) ↦ elim (Bool-cases (refresh_headers f)) [
      | inr r ↦ left (ground arith) (ground arith)
      | inl r ↦ elim (Bool-cases (other_port f)) [
        | inl o ↦ left (ground arith) (ground arith)
        | inr o ↦ elim (Bool-cases (starts_with f payload_base publish)) [
          | inr p ↦ left (ground arith) (ground arith)
          | inl p ↦ elim (Option-cases (extract_topic_id f (payload_base + 8))) [
            | inl t ↦ left (ground arith) (ground arith)
            | inr (key, t) ↦ elim (Option-cases (topics key)) [
              | inl k ↦ left (ground arith) (ground arith)
              | inr (keys, k) ↦
                  served f key keys e
                    (extract_topic_id-IsPublish f key (guards_of_IsCommand f r o p) t) k
                    (ground arith)
            ]
          ]
        ]
      ]
    ]
  ]

  -- For all helpers, maps and packets: where tc_ingress_broker takes a packet off the stack, the
  -- packet as bpf_skb_pull_data left it is a PUBLISH of a registered topic, and at most one clone
  -- is sent for each subscriber that the topic's map lists.
  pub tc_ingress_broker_shot :
      (tc_ingress_broker h topics s).0 ≡ act_shot
      → (f : Frame) × (key : Key) × (keys : List ℕ) × (h.skb_pull_data s.packet ≡ some f)
        × IsPublish f key
        × (topics key ≡ some keys)
        × (length (tc_ingress_broker h topics s).1.clones ≤ length s.clones + length keys)
  tc_ingress_broker_shot shot = elim run [
    | left e c ↦ absurd (cc (e, shot))
    | served f key keys pulled q k e ↦ (
      f,
      key,
      keys,
      pulled,
      q,
      k,
      rw e (serve-length h keys (record s { packet = f; pub_counter = increment s.pub_counter })),
    )
  ]

  -- What is not a PUBLISH stays on the stack, and no clone is sent.
  pub tc_ingress_broker-passes :
      ((f : Frame) (key : Key) → h.skb_pull_data s.packet ≡ some f → ¬ IsPublish f key)
      → ((tc_ingress_broker h topics s).0 ≡ act_ok)
        × ((tc_ingress_broker h topics s).1.clones ≡ s.clones)
  tc_ingress_broker-passes other = elim run [
    | left e c ↦ (e, c)
    | served f key keys pulled q k e ↦ absurd (other f key pulled q)
  ]
