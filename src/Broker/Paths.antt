-- ===== src/Broker/Paths.antt =====
-- The two ways of a PUBLISH to a topic's only subscriber: the XDP program, and the program behind it.
use bpf_broker.Prelude.{
  All, ℕ, refl, ◌+◌, ◌^◌, ◌≤◌, ◌<◌, ◌≡◌, ap, ◌∙◌, ◌⊎◌, List, [], ◌∷◌, ◌++◌, some,
}
use mathlib.Core.Path.{subst}
use bpf_broker.Frame.{Frame, load8, IsBytes, ip_base, ip_check, udp_check}
use bpf_broker.Checksum.Sum.{word_sum, Verifies}
use bpf_broker.Rewrite.Reply.{IsForwarded}
use bpf_broker.Rewrite.Same.{IsForwarded-agree}
use bpf_broker.Xdp.{tx, Counters, xdp_broker}
use bpf_broker.Xdp.Verdict.{xdp_broker-tx_iff, xdp_broker-forwards, xdp_broker-IsBytes}
use bpf_broker.Tc.{Helpers, Skb, act_shot, tc_ingress_broker}
use bpf_broker.Tc.Clones.{Works}
use bpf_broker.Tc.Serve.{Pairwise}
use bpf_broker.Tc.Forwards.{tc_ingress_broker-forwards}
use bpf_broker.Proto.Store.{Platform, Store}
use bpf_broker.Proto.Handler.Reachable.{Reachable, Reachable-IsViewOf, IsViewOf-small}
use bpf_broker.Broker.{tables_of, topics_of, topics_of-id}

-- The frames agree in every byte outside the two checksums.
abbrev pub AgreesOutsideChecksums : Frame → Frame → Type 0
AgreesOutsideChecksums g k =
    (i : ℕ)
    → (i < ip_check) ⊎ (ip_check + 2 ≤ i)
    → (i < udp_check) ⊎ (udp_check + 2 ≤ i)
    → load8 g i ≡ load8 k i

-- One subscriber, one clone.
single_clone :
    (P : ℕ → Frame → Type 0) (packed : ℕ) (l : List Frame)
    → Pairwise P (packed ∷ []) l
    → (g : Frame) × (l ≡ g ∷ []) × P packed g
single_clone P packed [] p = absurd p
single_clone P packed (g ∷ []) p = (g, refl, p.0)
single_clone P packed (g ∷ k ∷ l) p = absurd p.1

module _ (p : Platform) (buf : List ℕ) (st : Store p) (c : Counters) (f : Frame) (h : Helpers)
    (s : Skb) where
  -- On maps reached by any sequence of commands, each from an address of 32 bits and a port of 16
  -- and handled under Ready, and with helpers that do not fail and that do what they are documented
  -- to do for the sizes and flags in use: for a frame of bytes whose IP header verifies and for
  -- which xdp_broker returns XDP_TX, tc_ingress_broker would send exactly one clone and take the
  -- packet off the stack, and the clone agrees with the frame that xdp_broker transmits in every
  -- byte outside the two checksums.
  pub xdp_broker-tc_ingress_broker :
      Reachable p buf st
      → Works h
      → IsBytes f
      → h.skb_pull_data s.packet ≡ some f
      → Verifies (word_sum f ip_base 10)
      → (xdp_broker (tables_of p st) c f).0 ≡ tx
      → (g : Frame) × ((tc_ingress_broker h (topics_of p st) s).0 ≡ act_shot)
        × ((tc_ingress_broker h (topics_of p st) s).1.clones ≡ s.clones ++ g ∷ [])
        × AgreesOutsideChecksums g (xdp_broker (tables_of p st) c f).1
  xdp_broker-tc_ingress_broker r works b pulled valid sent =
      let (v, reached, shown) = Reachable-IsViewOf p r in
      let w = shown.valid in
      let (key, packed, q, one, first) = (xdp_broker-tx_iff (tables_of p st) c f).0 sent in
      let (id, at) = w.counted key 1 one in
      let sole = (w.topic key id at).single packed one first in
      let fits =
        (subst (All (λ n. n < 2 ^ 64)) sole (IsViewOf-small p v st key id reached shown at)).0 in
      let (shot, (l, clones, pairs)) =
        tc_ingress_broker-forwards h (topics_of p st) s f key (packed ∷ []) works b pulled q
          (topics_of-id p st key id at ∙ ap some sole) (fits, tt) valid in
      let (g, one_clone, both) =
        single_clone (λ packed k. IsBytes k × IsForwarded f packed k) packed l pairs in
      let (mine, checked, counter) =
        xdp_broker-forwards (tables_of p st) c f key packed b fits q one first in
      (
        g,
        shot,
        clones ∙ ap (λ m. s.clones ++ m) one_clone,
        λ i ip udp.
            IsForwarded-agree f g (xdp_broker (tables_of p st) c f).1 packed i both.0
              (xdp_broker-IsBytes (tables_of p st) c f key packed b q one first) both.1 mine ip udp,
      )
