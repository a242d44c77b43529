-- ===== src/Xdp/Verdict.antt =====
-- What xdp_broker decides, for every frame and every content of the maps.
use bpf_broker.Prelude.{
  ℕ, ◌+◌, ◌^◌, ◌<◌, ◌≡◌, ◌≢◌, ◌↔◌, refl, arith, none, some, Bool-cases, Option-cases, inl, inr,
}
use bpf_broker.Frame.{Frame, IsBytes, payload_base}
use bpf_broker.Checksum.{compute_udp_checksum}
use bpf_broker.Parse.{Key, parse_udp_packet, starts_with, extract_topic_id, publish}
use bpf_broker.Rewrite.{readdress}
use bpf_broker.Rewrite.Reply.{IsForwarded, readdress-IsForwarded, readdress-IsBytes}
use bpf_broker.Rewrite.Checked.{readdress_checked}
use bpf_broker.Checksum.Udp.{with_checksum}
use bpf_broker.Xdp.{pass, drop, tx, Tables, Counters, increment, other_port, forward, xdp_broker}
use bpf_broker.Xdp.Publish.{
  IsCommand, IsPublish, guards-IsCommand, parse_udp_packet_of_command, other_port_of_command,
  starts_with_of_command, extract_topic_id-IsPublish, extract_topic_id_of_publish,
}

-- The state after a PUBLISH has been counted.
abbrev pub counted : Counters → Counters
counted s = record s { pub_counter = increment s.pub_counter }

-- `forward` by what the maps hold for the topic.
module _ (m : Tables) (s : Counters) (f : Frame) (key : Key) where
  forward-tx :
      (forward m s f key).0 ≡ tx
      → (packed : ℕ) × (m.topic_sub_cnt key ≡ some 1) × (m.topic_first_sub key ≡ some packed)
  unfolding forward
  forward-tx h = elim (Option-cases (m.topic_first_sub key)) [
    | inl e ↦ absurd (ground arith)
    | inr (packed, e) ↦ (packed, ground arith, e)
  ]

  forward-drop :
      (forward m s f key).0 ≡ drop → (m.topic_sub_cnt key ≡ some 1) × (m.topic_first_sub key ≡ none)
  unfolding forward
  forward-drop h = ground arith

  forward-keeps :
      (forward m s f key).0 ≢ tx
      → ((forward m s f key).1 ≡ f) × ((forward m s f key).2.clone_counter ≡ s.clone_counter)
  unfolding forward
  forward-keeps h = ground arith

  forward-pub_counter : (forward m s f key).2.pub_counter ≡ s.pub_counter
  unfolding forward
  forward-pub_counter = ground arith

  forward-single :
      (packed : ℕ)
      → m.topic_sub_cnt key ≡ some 1
      → m.topic_first_sub key ≡ some packed
      → forward m s f key ≡ (
        tx,
        readdress compute_udp_checksum f packed,
        record s { clone_counter = increment s.clone_counter },
      )
  unfolding forward
  forward-single packed one first = ground arith

  forward-missing :
      m.topic_sub_cnt key ≡ some 1 → m.topic_first_sub key ≡ none → forward m s f key ≡ (drop, f, s)
  unfolding forward
  forward-missing one first = ground arith

module _ (m : Tables) (s : Counters) (f : Frame) where
  xdp_broker_of_publish :
      (key : Key) → IsPublish f key → xdp_broker m s f ≡ forward m (counted s) f key
  unfolding xdp_broker
  xdp_broker_of_publish key p = rw (
    parse_udp_packet_of_command p.is_command,
    other_port_of_command p.is_command,
    starts_with_of_command p.is_command,
    extract_topic_id_of_publish p,
  )

  -- Every run is one of three.
  data Run : Type 0 where
    other : (¬ IsCommand f) → xdp_broker m s f ≡ (pass, f, s) → Run
    no_topic :
        IsCommand f
        → ((key : Key) → ¬ IsPublish f key)
        → xdp_broker m s f ≡ (pass, f, counted s)
        → Run
    served : (key : Key) → IsPublish f key → xdp_broker m s f ≡ forward m (counted s) f key → Run

  run : Run
  unfolding xdp_broker
  run = elim (Bool-cases (parse_udp_packet f)) [
    | inr p ↦ other (λ c. cc (parse_udp_packet_of_command c)) (rw p)
    | inl p ↦ elim (Bool-cases (other_port f)) [
      | inl o ↦ other (λ c. cc (other_port_of_command c)) (rw (p, o))
      | inr o ↦ elim (Bool-cases (starts_with f payload_base publish)) [
        | inr n ↦ other (λ c. cc (starts_with_of_command c)) (rw (p, o, n))
        | inl y ↦
            let c = guards-IsCommand f p o y in
            elim (Option-cases (extract_topic_id f (payload_base + 8))) [
              | inl e ↦ no_topic c (λ key q. cc (extract_topic_id_of_publish q)) (rw (p, o, y, e))
              | inr (key, e) ↦
                  let q = extract_topic_id-IsPublish f key c e in
                  served key q (xdp_broker_of_publish key q)
            ]
      ]
    ]
  ]

  -- For all maps, counters and frames: xdp_broker returns XDP_TX exactly if the frame is a PUBLISH
  -- of a topic whose count is one and whose first subscriber is stored.
  pub xdp_broker-tx_iff : ((xdp_broker m s f).0 ≡ tx) ↔ (
      (key : Key) × (packed : ℕ) × IsPublish f key
      × (m.topic_sub_cnt key ≡ some 1)
      × (m.topic_first_sub key ≡ some packed))
  xdp_broker-tx_iff = (
    λ h. elim run [
      | other n e ↦ absurd (cc e)
      | no_topic c n e ↦ absurd (cc e)
      | served key p e ↦
          let (packed, one, first) = forward-tx m (counted s) f key (rw e at h) in
          (key, packed, p, one, first)
    ],
    λ (key, packed, p, one, first).
        rw (xdp_broker_of_publish key p, forward-single m (counted s) f key packed one first),
  )

  -- For all maps, counters and frames: xdp_broker returns XDP_DROP exactly if the frame is a
  -- PUBLISH of a topic whose count is one and whose first subscriber is missing.
  pub xdp_broker-drop_iff : ((xdp_broker m s f).0 ≡ drop) ↔ (
      (key : Key) × IsPublish f key
      × (m.topic_sub_cnt key ≡ some 1)
      × (m.topic_first_sub key ≡ none))
  xdp_broker-drop_iff = (
    λ h. elim run [
      | other n e ↦ absurd (cc e)
      | no_topic c n e ↦ absurd (cc e)
      | served key p e ↦
          let (one, first) = forward-drop m (counted s) f key (rw e at h) in (key, p, one, first)
    ],
    λ (key, p, one, first).
        rw (xdp_broker_of_publish key p, forward-missing m (counted s) f key one first),
  )

  -- A frame for which xdp_broker does not return XDP_TX is left as it was, and no clone is counted.
  pub xdp_broker-keeps :
      (xdp_broker m s f).0 ≢ tx
      → ((xdp_broker m s f).1 ≡ f) × ((xdp_broker m s f).2.clone_counter ≡ s.clone_counter)
  xdp_broker-keeps h = elim run [
    | other n e ↦ rw e (refl, refl)
    | no_topic c n e ↦ rw e (refl, refl)
    | served key p e ↦ rw e (forward-keeps m (counted s) f key (rw e at h))
  ]

  -- Every command, a datagram to the broker's ports that begins with PUBLISH, raises the publish
  -- counter by one where there is a counter, whatever becomes of it.
  pub xdp_broker-counts : IsCommand f → (xdp_broker m s f).2.pub_counter ≡ increment s.pub_counter
  xdp_broker-counts c = elim run [
    | other n e ↦ absurd (n c)
    | no_topic c n e ↦ rw e
    | served key p e ↦ rw (e, forward-pub_counter)
  ]

  -- A frame that is not a command is passed up the stack as it is, and no counter changes.
  pub xdp_broker-passes : ¬ IsCommand f → xdp_broker m s f ≡ (pass, f, s)
  xdp_broker-passes n = elim run [
    | other n e ↦ e
    | no_topic c k e ↦ absurd (n c)
    | served key p e ↦ absurd (n p.is_command)
  ]

  -- For a PUBLISH made of bytes, of a topic whose count is one and whose first subscriber is stored
  -- as a number of 64 bits: what xdp_broker leaves is a frame of the same length to that
  -- subscriber. The MAC addresses are exchanged, addresses and ports lead from the broker's to the
  -- subscriber's, the IP checksum verifies, and the bytes 12 to 23 (EtherType to protocol), 38 and
  -- 39 (UDP length) and all from 42 on (payload) are as before. The UDP checksum in bytes 40 and 41
  -- is the one that compute_udp_checksum gives for this frame with the field cleared. One clone is
  -- counted.
  pub xdp_broker-forwards :
      (key : Key) (packed : ℕ)
      → IsBytes f
      → packed < 2 ^ 64
      → IsPublish f key
      → m.topic_sub_cnt key ≡ some 1
      → m.topic_first_sub key ≡ some packed
      → IsForwarded f packed (xdp_broker m s f).1
        × (with_checksum compute_udp_checksum (xdp_broker m s f).1 ≡ (xdp_broker m s f).1)
        × ((xdp_broker m s f).2.clone_counter ≡ increment s.clone_counter)
  xdp_broker-forwards key packed b fits p one first =
      rw (xdp_broker_of_publish key p, forward-single m (counted s) f key packed one first)
        (
          readdress-IsForwarded compute_udp_checksum f packed b (omega (arith, p.is_command.udp))
              fits,
          readdress_checked compute_udp_checksum f packed,
          refl,
        )

  pub xdp_broker-IsBytes :
      (key : Key) (packed : ℕ)
      → IsBytes f
      → IsPublish f key
      → m.topic_sub_cnt key ≡ some 1
      → m.topic_first_sub key ≡ some packed
      → IsBytes (xdp_broker m s f).1
  xdp_broker-IsBytes key packed b p one first =
      rw (xdp_broker_of_publish key p, forward-single m (counted s) f key packed one first)
        (readdress-IsBytes compute_udp_checksum f packed b)
