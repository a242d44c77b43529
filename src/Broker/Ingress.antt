-- ===== src/Broker/Ingress.antt =====
-- Both programs of bpf_broker/bpf_broker_kern.c on one packet, as bpf_broker/bpf_broker_user.c attaches
-- them: the XDP program first, and the program at tc ingress on what it passes.
use bpf_broker.Prelude.{
  ℕ, ◌^◌, ◌<◌, ◌≡◌, refl, sym, ap, ap₂, ◌∙◌, ◌⊎◌, inl, inr, Bool, true, false, List, [], ◌∷◌, ◌++◌,
  Option, none, some, All,
}
use mathlib.Core.Path.{subst}
use bpf_broker.Frame.{Frame, IsBytes, ip_base}
use bpf_broker.Checksum.Sum.{word_sum, Verifies}
use bpf_broker.Parse.{Key}
use bpf_broker.Rewrite.Reply.{IsForwarded}
use bpf_broker.Xdp.{XdpAction, pass, drop, tx, Tables, Counters, xdp_broker}
use bpf_broker.Xdp.Publish.{IsCommand, IsPublish, IsPublish-unique}
use bpf_broker.Xdp.Verdict.{
  xdp_broker-tx_iff, xdp_broker-drop_iff, xdp_broker-forwards, xdp_broker-keeps, xdp_broker-passes,
}
use bpf_broker.Tc.{Helpers, Skb, TcAction, act_ok, act_shot, tc_ingress_broker}
use bpf_broker.Tc.Clones.{Works}
use bpf_broker.Tc.Serve.{Pairwise, Pairwise-map}
use bpf_broker.Tc.Forwards.{tc_ingress_broker-forwards}
use bpf_broker.Tc.Verdict.{tc_ingress_broker-passes}
use bpf_broker.Proto.Store.{Platform, Store}
use bpf_broker.Proto.Service.Invariant.{id_of, count_of, first_of_topic, subscribers, WellFormed}
use bpf_broker.Broker.{tables_of, topics_of, topics_of-id}

-- What the network sees of a packet: whether it goes up the stack, and the frames that were sent,
-- in order.
pub record Traffic : Type 0 where
  pub to_stack : Bool
  pub sent : List Frame

abbrev is_ok : TcAction → Bool
is_ok act_ok = true
is_ok act_shot = false

abbrev behind_xdp : Helpers → (Key → Option (List ℕ)) → Skb → XdpAction → Frame → Traffic
behind_xdp h topics s drop f = record { to_stack = false; sent = s.clones }
behind_xdp h topics s tx f = record { to_stack = false; sent = s.clones ++ f ∷ [] }
behind_xdp h topics s pass f =
    let (action, s') = tc_ingress_broker h topics (record s { packet = f }) in
    record { to_stack = is_ok action; sent = s'.clones }

-- The packet is that of `s`, and the frames sent before are its clones.
unfoldable pub ingress : Helpers → Tables → (Key → Option (List ℕ)) → Counters → Skb → Traffic
ingress h m topics c s =
    let (action, f, counters) = xdp_broker m c s.packet in behind_xdp h topics s action f

module _ (h : Helpers) (m : Tables) (topics : Key → Option (List ℕ)) (c : Counters) (s : Skb) where
  ingress-tx :
      (xdp_broker m c s.packet).0 ≡ tx
      → ingress h m topics c s
        ≡ record { to_stack = false; sent = s.clones ++ (xdp_broker m c s.packet).1 ∷ [] }
  unfolding ingress
  ingress-tx e = ap (λ a. behind_xdp h topics s a (xdp_broker m c s.packet).1) e

  ingress-drop :
      (xdp_broker m c s.packet).0 ≡ drop
      → ingress h m topics c s ≡ record { to_stack = false; sent = s.clones }
  unfolding ingress
  ingress-drop e = ap (λ a. behind_xdp h topics s a (xdp_broker m c s.packet).1) e

  -- xdp_broker passes what it has not touched.
  ingress-pass :
      (xdp_broker m c s.packet).0 ≡ pass
      → ingress h m topics c s ≡ record {
        to_stack = is_ok (tc_ingress_broker h topics s).0;
        sent = (tc_ingress_broker h topics s).1.clones;
      }
  unfolding ingress
  ingress-pass e = ap₂ (behind_xdp h topics s) e (xdp_broker-keeps m c s.packet (λ t. cc (e, t))).0

  -- For all helpers, maps and counters, and every packet that is no command, as it arrives and as
  -- bpf_skb_pull_data leaves it: both programs let it up the stack, and nothing is sent.
  pub ingress-passes :
      ¬ IsCommand s.packet
      → ((f : Frame) → h.skb_pull_data s.packet ≡ some f → ¬ IsCommand f)
      → ingress h m topics c s ≡ record { to_stack = true; sent = s.clones }
  ingress-passes n pulled =
      let (stays, none_sent) =
        tc_ingress_broker-passes h topics s (λ f key e q. pulled f e q.is_command) in
      ingress-pass (ap (λ r. r.0) (xdp_broker-passes m c s.packet n))
      ∙ ap₂ (λ a l. record { to_stack = is_ok a; sent = l }) stays none_sent

XdpAction-cases : (a : XdpAction) → (a ≡ pass) ⊎ (a ≡ drop) ⊎ (a ≡ tx)
XdpAction-cases pass = inl refl
XdpAction-cases drop = inr (inl refl)
XdpAction-cases tx = inr (inr refl)

-- Nothing goes up the stack, and each of `keys` is sent one frame, the packet forwarded to it.
pub record Serves (s : Skb) (keys : List ℕ) (t : Traffic) : Type 0 where
  pub off_stack : t.to_stack ≡ false
  pub frames : List Frame
  pub sent : t.sent ≡ s.clones ++ frames
  pub forwarded : Pairwise (IsForwarded s.packet) keys frames

-- The count says one subscriber, and no first subscriber is stored: the packet is dropped.
pub record Drops (p : Platform) (st : Store p) (key : Key) (s : Skb) (t : Traffic) : Type 0 where
  pub one : count_of p st key ≡ some 1
  pub missing : first_of_topic p st key ≡ none
  pub dropped : t ≡ record { to_stack = false; sent = s.clones }

module _ (p : Platform) (st : Store p) (c : Counters) (h : Helpers) (s : Skb) (key : Key)
    (id : ℕ) where
  -- On well-formed maps.
  pub ingress-Serves :
      WellFormed p st
      → Works h
      → IsBytes s.packet
      → h.skb_pull_data s.packet ≡ some s.packet
      → Verifies (word_sum s.packet ip_base 10)
      → IsPublish s.packet key
      → id_of p st key ≡ some id
      → All (λ packed. packed < 2 ^ 64) (subscribers p st id)
      → Drops p st key s (ingress h (tables_of p st) (topics_of p st) c s)
        ⊎ Serves s (subscribers p st id) (ingress h (tables_of p st) (topics_of p st) c s)
  ingress-Serves w works b pulled valid q at fit =
      elim (XdpAction-cases (xdp_broker (tables_of p st) c s.packet).0) [
        | inl e ↦
            let (shot, (l, sent, pairs)) =
              tc_ingress_broker-forwards h (topics_of p st) s s.packet key (subscribers p st id)
                works b pulled q (topics_of-id p st key id at) fit valid in
            inr (
              subst (Serves s (subscribers p st id))
                (sym (ingress-pass h (tables_of p st) (topics_of p st) c s e))
                (record {
                  off_stack = ap is_ok shot;
                  frames = l;
                  sent = sent;
                  forwarded = Pairwise-map (subscribers p st id) l (λ k g x. x.1) pairs;
                }))
        | inr (inl e) ↦
            let (k, publishes, one, missing) =
              (xdp_broker-drop_iff (tables_of p st) c s.packet).0 e in
            let same : k ≡ key = IsPublish-unique s.packet k key publishes q in
            inl (record {
              one = ap (count_of p st) (sym same) ∙ one;
              missing = ap (first_of_topic p st) (sym same) ∙ missing;
              dropped = ingress-drop h (tables_of p st) (topics_of p st) c s e;
            })
        | inr (inr e) ↦
            let (k, packed, publishes, one, first) =
              (xdp_broker-tx_iff (tables_of p st) c s.packet).0 e in
            let same : k ≡ key = IsPublish-unique s.packet k key publishes q in
            let sole =
              (w.topic key id at).single packed (ap (count_of p st) (sym same) ∙ one)
                (ap (first_of_topic p st) (sym same) ∙ first) in
            let fits = subst (All (λ n. n < 2 ^ 64)) sole fit in
            inr (
              subst (λ keys. Serves s keys (ingress h (tables_of p st) (topics_of p st) c s))
                (sym sole)
                (subst (Serves s (packed ∷ []))
                  (sym (ingress-tx h (tables_of p st) (topics_of p st) c s e))
                  (record {
                    off_stack = refl;
                    frames = (xdp_broker (tables_of p st) c s.packet).1 ∷ [];
                    sent = refl;
                    forwarded = (
                      (xdp_broker-forwards (tables_of p st) c s.packet k packed b fits.0 publishes
                          one first).0,
                      tt,
                    );
                  })))
      ]
