-- ===== src/CloneTx/Verdict.antt =====
-- What the cloning program decides for copies and originals, and that all copies together reach
-- every subscriber once.
use bpf_broker.Prelude.{
  ℕ, ◌+◌, ◌-◌, ◌/◌, ◌^◌, ◌<◌, ◌≡◌, ◌≢◌, ◌↔◌, refl, ap, ◌∙◌, ◌⊎◌, arith, none, some, Option,
  Bool-cases, Option-cases, inl, inr,
}
use bpf_broker.Frame.{Frame, IsBytes, payload_base}
use bpf_broker.Parse.{Key, parse_udp_packet, starts_with, extract_topic_id, publish}
use bpf_broker.Rewrite.{readdress}
use bpf_broker.Rewrite.Reply.{IsForwarded, readdress-IsForwarded}
use bpf_broker.Xdp.{increment, other_port}
use bpf_broker.Xdp.Publish.{
  IsCommand, IsPublish, guards-IsCommand, parse_udp_packet_of_command, other_port_of_command,
  starts_with_of_command, extract_topic_id-IsPublish, extract_topic_id_of_publish,
}
use bpf_broker.CloneTx.{
  xdp_pass, xdp_tx, xdp_clone_tx, CloneTables, clone_udp_checksum, clone_copy, original,
}

-- The subscriber of a copy.
abbrev pub SubscriberOf : CloneTables → Key → ℕ → ℕ → Type 0
SubscriberOf m key num_copy packed =
    (inner_map : ℕ → Option ℕ) × (m.topic_sub_array key ≡ some inner_map)
    × (inner_map (num_copy - 1) ≡ some packed)

module _ (m : CloneTables) (f : Frame) where
  clone_copy_of_publish :
      (key : Key) (num_copy packed : ℕ)
      → IsPublish f key
      → num_copy ≢ 0
      → SubscriberOf m key num_copy packed
      → clone_copy m num_copy f ≡ (xdp_tx, readdress clone_udp_checksum f packed)
  unfolding clone_copy
  clone_copy_of_publish key num_copy packed q n (inner_map, a, b) =
      let e1 = parse_udp_packet_of_command q.is_command in
      let e2 = other_port_of_command q.is_command in
      let e3 = starts_with_of_command q.is_command in
      let e4 = extract_topic_id_of_publish q in ground arith

  -- The lookups of a copy, once its topic is known.
  copy_lookups :
      (key : Key) (num_copy : ℕ)
      → IsCommand f
      → extract_topic_id f (payload_base + 8) ≡ some key
      → (clone_copy m num_copy f).0 ≡ xdp_tx
      → (packed : ℕ) × (num_copy ≢ 0) × SubscriberOf m key num_copy packed
  unfolding clone_copy
  copy_lookups key num_copy c e h =
      let e1 = parse_udp_packet_of_command c in
      let e2 = other_port_of_command c in
      let e3 = starts_with_of_command c in
      elim (Option-cases (m.topic_sub_array key)) [
        | inl a ↦ absurd (ground arith)
        | inr (inner_map, a) ↦ elim (Option-cases (inner_map (num_copy - 1))) [
          | inl b ↦ absurd (ground arith)
          | inr (packed, b) ↦ (packed, ground arith, (inner_map, a, b))
        ]
      ]

  -- What the guards have let through.
  copy_guards :
      (num_copy : ℕ)
      → (clone_copy m num_copy f).0 ≡ xdp_tx
      → (key : Key) × IsCommand f × (extract_topic_id f (payload_base + 8) ≡ some key)
  unfolding clone_copy
  copy_guards num_copy h = elim (Bool-cases (parse_udp_packet f)) [
    | inr e ↦ absurd (ground arith)
    | inl e1 ↦ elim (Bool-cases (other_port f)) [
      | inl e ↦ absurd (ground arith)
      | inr e2 ↦ elim (Bool-cases (starts_with f payload_base publish)) [
        | inr e ↦ absurd (ground arith)
        | inl e3 ↦ elim (Option-cases (extract_topic_id f (payload_base + 8))) [
          | inl e ↦ absurd (ground arith)
          | inr (key, e) ↦ (key, guards-IsCommand f e1 e2 e3, e)
        ]
      ]
    ]
  ]

  -- For every copy number: the copy is transmitted exactly if it is a PUBLISH, its number is not
  -- zero, and the array of its topic holds a subscriber at the index before the number.
  pub clone_copy-tx_iff :
      (num_copy : ℕ)
      → ((clone_copy m num_copy f).0 ≡ xdp_tx) ↔ (
          (key : Key) × (packed : ℕ) × IsPublish f key
          × (num_copy ≢ 0)
          × SubscriberOf m key num_copy packed)
  clone_copy-tx_iff num_copy = (
    λ h.
        let (key, c, e) = copy_guards num_copy h in
        let (packed, n, found) = copy_lookups key num_copy c e h in
        (key, packed, extract_topic_id-IsPublish f key c e, n, found),
    λ (key, packed, q, n, found). rw (clone_copy_of_publish key num_copy packed q n found),
  )

  pub original_of_publish :
      (pub_counter : Option ℕ) (key : Key) (n : ℕ)
      → IsPublish f key
      → m.topic_sub_cnt key ≡ some n
      → n ≢ 0
      → original m pub_counter f ≡ (xdp_clone_tx n, increment pub_counter)
  unfolding original
  original_of_publish pub_counter key n q count some_n =
      let e1 = parse_udp_packet_of_command q.is_command in
      let e2 = other_port_of_command q.is_command in
      let e3 = starts_with_of_command q.is_command in
      let e4 = extract_topic_id_of_publish q in ground arith

  -- For a PUBLISH made of bytes, of a topic whose count is `n` below 2 ^ 27, and an index `k` below
  -- `n` at which the topic's array holds a subscriber of 64 bits: the original returns `n` in the
  -- bits from 5 on and is counted, and its copy `k + 1` is transmitted as the frame forwarded to
  -- that subscriber.
  pub original-fan_out :
      (pub_counter : Option ℕ) (key : Key) (n k packed : ℕ) (inner_map : ℕ → Option ℕ)
      → IsBytes f
      → IsPublish f key
      → m.topic_sub_cnt key ≡ some n
      → k < n
      → n < 2 ^ 27
      → m.topic_sub_array key ≡ some inner_map
      → inner_map k ≡ some packed
      → packed < 2 ^ 64
      → ((original m pub_counter f).0 / 32 ≡ n)
        × ((original m pub_counter f).1 ≡ increment pub_counter)
        × ((clone_copy m (k + 1) f).0 ≡ xdp_tx)
        × IsForwarded f packed (clone_copy m (k + 1) f).1
  original-fan_out pub_counter key n k packed inner_map b q count h few array held fits =
      let at : inner_map (k + 1 - 1) ≡ some packed = ap inner_map (omega arith) ∙ held in
      rw
        (
          original_of_publish pub_counter key n q count (λ e. omega arith),
          clone_copy_of_publish key (k + 1) packed q (λ e. omega arith) (inner_map, array, at),
        )
        (
          omega arith,
          refl,
          refl,
          readdress-IsForwarded clone_udp_checksum f packed b (omega (arith, q.is_command.udp))
              fits,
        )

  -- A publish of a topic without subscribers.
  pub original_of_idle :
      (pub_counter : Option ℕ) (key : Key)
      → IsPublish f key
      → (m.topic_sub_cnt key ≡ none) ⊎ (m.topic_sub_cnt key ≡ some 0)
      → original m pub_counter f ≡ (xdp_pass, increment pub_counter)
  unfolding original
  original_of_idle pub_counter key q idle =
      let e1 = parse_udp_packet_of_command q.is_command in
      let e2 = other_port_of_command q.is_command in
      let e3 = starts_with_of_command q.is_command in
      let e4 = extract_topic_id_of_publish q in
      elim idle [ inl e ↦ ground arith | inr e ↦ ground arith ]
