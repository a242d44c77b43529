-- ===== src/Tc/Forwards.antt =====
-- What leaves tc_ingress_broker for the subscribers of a topic, with helpers that work.
use bpf_broker.Prelude.{
  ℕ, ◌^◌, ◌≤◌, ◌<◌, ◌≡◌, refl, ap, ◌∙◌, arith, length, List, [], ◌∷◌, ◌++◌, Option, some, All,
}
use bpf_broker.Frame.{Frame, IsBytes, ip_base}
use bpf_broker.Checksum.Sum.{word_sum, Verifies}
use bpf_broker.Checksum.Received.{datagram_length, received_sum}
use bpf_broker.Parse.{Key}
use bpf_broker.Parse.Headers.{IsUdp}
use bpf_broker.Rewrite.Reply.{IsForwarded}
use bpf_broker.Xdp.{increment}
use bpf_broker.Xdp.Publish.{IsPublish}
use bpf_broker.Tc.{Helpers, Skb, act_shot, tc_ingress_broker}
use bpf_broker.Tc.Broker.{IsForwarded-of_IsFromBroker, udp_valid_of_IsFromBroker}
use bpf_broker.Tc.Clones.{Works}
use bpf_broker.Tc.Serve.{
  Pairwise, Pairwise-map, IsClone, for_each_subscriber-clones, serve-prepares,
  tc_ingress_broker_of_publish,
}

-- All clones of a list have what the subscribers' clones have.
All-of_Pairwise :
    {A B : Type 0} {P : A → B → Type 0} (Q : B → Type 0) (xs : List A) (ys : List B)
    → ((x : A) (y : B) → P x y → Q y)
    → Pairwise P xs ys
    → (length ys ≡ length xs) × All Q ys
All-of_Pairwise Q [] [] h p = (refl, tt)
All-of_Pairwise Q [] (y ∷ ys) h p = absurd p
All-of_Pairwise Q (x ∷ xs) [] h p = absurd p
All-of_Pairwise Q (x ∷ xs) (y ∷ ys) h (p, ps) =
    let (same, rest) = All-of_Pairwise Q xs ys h ps in (omega (arith, same), (h x y p, rest))

module _ (h : Helpers) (topics : Key → Option (List ℕ)) (s : Skb) (f : Frame) (key : Key)
    (keys : List ℕ) (works : Works h) (bytes : IsBytes f)
    (pulled : h.skb_pull_data s.packet ≡ some f) (publishes : IsPublish f key)
    (known : topics key ≡ some keys) (fit : All (λ packed. packed < 2 ^ 64) keys) where
  headers : IsUdp 42 f
  headers =
      let u = publishes.is_command.udp in
      record { room = omega (arith, u.room); ethertype = u.ethertype; protocol = u.protocol }

  served :
      ((tc_ingress_broker h topics s).0 ≡ act_shot)
      × ((l : List Frame) × ((tc_ingress_broker h topics s).1.clones ≡ s.clones ++ l)
          × Pairwise (IsClone f) keys l)
  served =
      let counted : Skb = record s { pub_counter = increment s.pub_counter } in
      let (g, e, from) = serve-prepares h works f bytes headers keys counted in
      let (l, sent, pairs) =
        for_each_subscriber-clones h works f bytes headers keys (record counted { packet = g }) fit
          from in
      let whole = tc_ingress_broker_of_publish h topics s f key keys pulled publishes known ∙ e in
      (ap (λ r. r.0) whole, (l, ap (λ r. r.1.clones) whole ∙ sent, pairs))

  -- For a PUBLISH made of bytes that bpf_skb_pull_data leaves, whose IP header verifies, of a topic
  -- whose map has the subscribers `keys`, all numbers of 64 bits, and with helpers that do not fail
  -- and that do what they are documented to do for the sizes and flags in use: tc_ingress_broker
  -- takes the packet off the stack and sends one clone for each subscriber, in the order of the
  -- iteration, each made of bytes and the frame forwarded to that subscriber.
  pub tc_ingress_broker-forwards :
      Verifies (word_sum f ip_base 10)
      → ((tc_ingress_broker h topics s).0 ≡ act_shot)
        × ((l : List Frame) × ((tc_ingress_broker h topics s).1.clones ≡ s.clones ++ l)
            × Pairwise (λ packed g. IsBytes g × IsForwarded f packed g) keys l)
  tc_ingress_broker-forwards valid =
      let (shot, (l, sent, pairs)) = served in
      (
        shot,
        (
          l,
          sent,
          Pairwise-map keys l
              (λ packed g (from, daddr, port).
                (from.bytes, IsForwarded-of_IsFromBroker f g packed headers valid from daddr port))
              pairs,
        ),
      )

  -- For a PUBLISH made of bytes that bpf_skb_pull_data leaves, of a topic whose map has the
  -- subscribers `keys`, all numbers of 64 bits, and with helpers that do not fail and that do what
  -- they are documented to do for the sizes and flags in use: if its datagram has at least 8 bytes
  -- and a UDP checksum that verifies at the receiver, so have all clones that tc_ingress_broker
  -- sends, of which there are as many as subscribers.
  pub tc_ingress_broker-udp_valid :
      8 ≤ datagram_length f
      → Verifies (received_sum f)
      → (l : List Frame) × ((tc_ingress_broker h topics s).1.clones ≡ s.clones ++ l)
        × (length l ≡ length keys)
        × All (λ g. Verifies (received_sum g)) l
  tc_ingress_broker-udp_valid long valid =
      let (shot, (l, sent, pairs)) = served in
      let (same, all) =
        All-of_Pairwise (λ g. Verifies (received_sum g)) keys l
          (λ packed g (from, daddr, port). udp_valid_of_IsFromBroker f g long valid from) pairs in
      (l, sent, same, all)
