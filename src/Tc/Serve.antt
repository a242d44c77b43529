-- ===== src/Tc/Serve.antt =====
-- A PUBLISH in tc_ingress_broker, with helpers that work: the exchange of the addresses, and the
-- iteration over the subscribers.
use bpf_broker.Prelude.{
  ℕ, ◌+◌, ◌%◌, ◌^◌, ◌≤◌, ◌<◌, ◌≡◌, refl, sym, ap, ◌∙◌, ◌⊎◌, inl, true, arith, length, List, [], ◌∷◌,
  ◌++◌, Option, some, All,
}
use mathlib.Core.List.{append_assoc, append-nil}
use bpf_broker.Frame.{
  Frame, load8, load16, load32, store16, store32, IsBytes, eth_dest, eth_source, ip_base, ip_check,
  ip_saddr, ip_daddr, udp_source, udp_dest, udp_check,
}
use bpf_broker.Frame.Access.{load16-lt, load32-lt, load16_ext, load32_ext}
use bpf_broker.Checksum.Sum.{word_sum_ext}
use bpf_broker.Checksum.Received.{received_sum_ext, datagram_length_ext}
use bpf_broker.Parse.{Key, refresh_headers}
use bpf_broker.Parse.Headers.{IsUdp, refresh_headers_iff}
use bpf_broker.Rewrite.{swap_macs, packed_ip, packed_port}
use bpf_broker.Rewrite.Mac.{
  read_bytes_ext, length-swap_macs, swap_macs-IsBytes, load8-swap_macs, read_bytes-swap_macs_dest,
  read_bytes-swap_macs_source,
}
use bpf_broker.Xdp.{increment}
use bpf_broker.Xdp.Publish.{
  IsPublish, other_port_of_command, starts_with_of_command, extract_topic_id_of_publish,
}
use bpf_broker.Tc.{
  Helpers, Skb, act_shot, pseudo_hdr, send_clone, for_each_subscriber, serve_ports, serve,
  tc_ingress_broker,
}
use bpf_broker.Tc.Fields.{IsChanged}
use bpf_broker.Tc.Broker.{IsFromBroker, refresh_headers_kept}
use bpf_broker.Tc.Clones.{Works, new_port, new_address, callback_fn-sends}

-- The lists are of the same length, and their elements are related one by one.
abbrev pub Pairwise : {A B : Type 0} → (A → B → Type 0) → List A → List B → Type 0
Pairwise P [] [] = Unit
Pairwise P [] (y ∷ ys) = ⊥
Pairwise P (x ∷ xs) [] = ⊥
Pairwise P (x ∷ xs) (y ∷ ys) = P x y × Pairwise P xs ys

pub Pairwise-map :
    {A B : Type 0} {P Q : A → B → Type 0} (xs : List A) (ys : List B)
    → ((x : A) (y : B) → P x y → Q x y)
    → Pairwise P xs ys
    → Pairwise Q xs ys
Pairwise-map [] [] h p = tt
Pairwise-map [] (y ∷ ys) h p = p
Pairwise-map (x ∷ xs) [] h p = p
Pairwise-map (x ∷ xs) (y ∷ ys) h (p, ps) = (h x y p, Pairwise-map xs ys h ps)

-- The packet goes from the broker to the subscriber.
abbrev pub IsClone : Frame → ℕ → Frame → Type 0
IsClone f packed g =
    IsFromBroker f g
    × (load32 g ip_daddr ≡ packed_ip packed)
    × (load16 g udp_dest ≡ packed_port packed)

module _ (h : Helpers) (works : Works h) (f : Frame) (b : IsBytes f) (u : IsUdp 42 f) where
  send_clone-clones : (s : Skb) → (send_clone h s).clones ≡ s.clones ++ s.packet ∷ []
  unfolding send_clone
  send_clone-clones s = let sent = works.redirects s.packet in ground arith

  -- One clone for each subscriber, in order.
  pub for_each_subscriber-clones :
      (keys : List ℕ) (s : Skb)
      → All (λ packed. packed < 2 ^ 64) keys
      → IsFromBroker f s.packet
      → (l : List Frame) × ((for_each_subscriber h keys s).clones ≡ s.clones ++ l)
        × Pairwise (IsClone f) keys l
  unfolding for_each_subscriber
  for_each_subscriber-clones [] s fits p = ([], sym (append-nil s.clones), tt)
  for_each_subscriber-clones (packed ∷ keys) s fits p =
      let (g, e, from, daddr, dport) = callback_fn-sends h works f u packed s fits.0 p in
      let s1 : Skb = record s { packet = g } in
      let (l, rest, pairs) =
        for_each_subscriber-clones keys (send_clone h s1) fits.1 (unfold send_clone in from) in
      (
        g ∷ l,
        ap (λ t. (for_each_subscriber h keys t).clones) e
            ∙ rest
            ∙ ap (λ c. c ++ l) (send_clone-clones s1)
            ∙ append_assoc s.clones (g ∷ []) l,
        ((from, daddr, dport), pairs),
      )

-- `serve` where the helpers succeed.
serve_ports_lem :
    (h : Helpers) (keys : List ℕ) (s : Skb) (g : Frame)
    → h.l4_csum_replace
        (store16 s.packet udp_source (load16 s.packet udp_dest))
        udp_check
        (load16 s.packet udp_source)
        (load16 (store16 s.packet udp_source (load16 s.packet udp_dest)) udp_source)
        (2 + pseudo_hdr)
      ≡ some g
    → serve_ports h keys s ≡ (act_shot, for_each_subscriber h keys (record s { packet = g }))
unfolding serve_ports
serve_ports_lem h keys s g e = ground arith

serve_lem :
    (h : Helpers) (keys : List ℕ) (s : Skb) (f1 g1 g2 : Frame)
    → swap_macs s.packet ≡ f1
    → h.l3_csum_replace
        (store32 f1 ip_saddr (load32 f1 ip_daddr))
        ip_check
        (load32 f1 ip_saddr)
        (load32 (store32 f1 ip_saddr (load32 f1 ip_daddr)) ip_saddr)
        4
      ≡ some g1
    → refresh_headers g1 ≡ true
    → h.l4_csum_replace g1 udp_check (load32 f1 ip_saddr) (load32 g1 ip_saddr) (4 + pseudo_hdr)
      ≡ some g2
    → refresh_headers g2 ≡ true
    → serve h keys s ≡ serve_ports h keys (record s { packet = g2 })
unfolding serve
serve_lem h keys s f1 g1 g2 e e1 r1 e2 r2 = ground arith

module _ (h : Helpers) (works : Works h) (f : Frame) (b : IsBytes f) (u : IsUdp 42 f) where
  -- The sums of the frame do not see its MAC addresses.
  abbrev swapped : Frame
  swapped = swap_macs f

  swapped-IsUdp : IsUdp 42 swapped
  swapped-IsUdp =
      (refresh_headers_iff swapped).0
        (refresh_headers_kept f swapped (length-swap_macs f) (λ i p. load8-swap_macs f i p.0) u)

  room : 42 ≤ length swapped
  room = swapped-IsUdp.room

  -- The packet before the iteration.
  module _ (g2 g : Frame) (c : IsChanged swapped ip_saddr 4 g2) (d : IsChanged g2 udp_source 2 g)
      (address : load32 g2 ip_saddr ≡ load32 swapped ip_daddr)
      (port : load16 g udp_source ≡ load16 g2 udp_dest) where
    kept_byte :
        (i : ℕ)
        → (i < 24) ⊎ ((30 ≤ i) × (i < 34)) ⊎ ((36 ≤ i) × (i < 40)) ⊎ (42 ≤ i)
        → load8 g i ≡ load8 swapped i
    kept_byte i k = d.others i (ground arith) ∙ c.others i (ground arith)

    prepared-IsFromBroker : IsFromBroker f g
    prepared-IsFromBroker = record {
      bytes = d.bytes;
      same_length = d.same_length ∙ c.same_length ∙ length-swap_macs f;
      dest_mac =
          read_bytes_ext g swapped 6 eth_dest (λ i p q. kept_byte i (inl (omega arith)))
          ∙ read_bytes-swap_macs_dest f b (omega (arith, u.room));
      source_mac =
          read_bytes_ext g swapped 6 eth_source (λ i p q. kept_byte i (inl (omega arith)))
          ∙ read_bytes-swap_macs_source f b (omega (arith, u.room));
      saddr =
          load32_ext g g2 ip_saddr (λ i p q. d.others i (ground arith))
          ∙ address
          ∙ load32_ext swapped f ip_daddr (λ i p q. load8-swap_macs f i (omega arith));
      source_port =
          port
          ∙ load16_ext g2 swapped udp_dest (c.others 36 (ground arith)) (c.others 37 (ground arith))
          ∙ load16_ext swapped f udp_dest (load8-swap_macs f 36 (omega arith))
              (load8-swap_macs f 37 (omega arith));
      kept = λ i k. kept_byte i (ground arith) ∙ load8-swap_macs f i (ground arith);
      ip_sum =
          d.ip_sum
          ∙ c.ip_sum
          ∙ ap (λ (n : ℕ). n % 65535)
              (word_sum_ext swapped f 10 ip_base (λ i p q. load8-swap_macs f i (omega arith)));
      udp_length =
          d.udp_length
          ∙ c.udp_length
          ∙ datagram_length_ext swapped f (λ i p. load8-swap_macs f i (omega arith));
      udp_sum = λ long.
          let same = datagram_length_ext swapped f (λ i p. load8-swap_macs f i (omega arith)) in
          d.udp_sum (omega (arith, c.udp_length, same))
          ∙ c.udp_sum (omega (arith, same))
          ∙ ap (λ (n : ℕ). n % 65535)
              (received_sum_ext swapped f (λ i p. load8-swap_macs f i (omega arith)));
    }

  -- The exchange of the addresses.
  pub serve-prepares :
      (keys : List ℕ) (s : Skb)
      → (g : Frame) × (serve h keys (record s { packet = f })
          ≡ (act_shot, for_each_subscriber h keys (record s { packet = g })))
        × IsFromBroker f g
  serve-prepares keys s =
      let (g1, g2, e1, r1, e2, c, address) =
        new_address h works swapped (swap_macs-IsBytes f b) room ip_saddr (load32 swapped ip_daddr)
          (inl refl) (load32-lt swapped (swap_macs-IsBytes f b) ip_daddr) swapped-IsUdp in
      let r2 =
        refresh_headers_kept swapped g2 c.same_length (λ i p. c.others i (ground arith))
          swapped-IsUdp in
      let (g, e, d, port) =
        new_port h works g2 c.bytes (omega (arith, c.same_length, room)) udp_source
          (load16 g2 udp_dest) (inl refl) (load16-lt g2 c.bytes udp_dest) in
      (
        g,
        serve_lem h keys (record s { packet = f }) swapped g1 g2 refl e1 r1 e2 r2
            ∙ serve_ports_lem h keys (record s { packet = g2 }) g e,
        prepared-IsFromBroker g2 g c d address port,
      )

-- A PUBLISH of a known topic is served.
pub tc_ingress_broker_of_publish :
    (h : Helpers) (topics : Key → Option (List ℕ)) (s : Skb) (f : Frame) (key : Key) (keys : List ℕ)
    → h.skb_pull_data s.packet ≡ some f
    → IsPublish f key
    → topics key ≡ some keys
    → tc_ingress_broker h topics s
      ≡ serve h keys (record s { packet = f; pub_counter = increment s.pub_counter })
unfolding tc_ingress_broker
tc_ingress_broker_of_publish h topics s f key keys e q k =
    let v = q.is_command.udp in
    let r =
      (refresh_headers_iff f).1
        (record { room = omega (arith, v.room); ethertype = v.ethertype; protocol = v.protocol }) in
    let o = other_port_of_command q.is_command in
    let p = starts_with_of_command q.is_command in
    let t = extract_topic_id_of_publish q in ground arith
