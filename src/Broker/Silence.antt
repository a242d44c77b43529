-- ===== src/Broker/Silence.antt =====
-- A FLUSH, and a PUBLISH after it.
use bpf_broker.Prelude.{
  ℕ, ◌<◌, ◌^◌, All, ap₂, false, ◌≡◌, inl, inr, sym, ap, ◌∙◌, true, length, List, [], ◌∷◌, ◌++◌,
  some,
}
use mathlib.Core.Path.{subst}
use mathlib.Core.List.{append-nil}
use bpf_broker.Parse.Topic.{key_of}
use bpf_broker.Xdp.{Counters}
use bpf_broker.Frame.{Frame}
use bpf_broker.Rewrite.Reply.{IsForwarded}
use bpf_broker.Tc.{Helpers, Skb}
use bpf_broker.Tc.Clones.{Works}
use bpf_broker.Tc.Serve.{Pairwise}
use bpf_broker.Proto.Text.{read_topic}
use bpf_broker.Proto.Store.{Platform, Store, Env}
use bpf_broker.Proto.Service.{done}
use bpf_broker.Proto.Service.Invariant.{id_of, subscribers}
use bpf_broker.Proto.Service.Flush.{IsFlushed, flush_topic-IsFlushed}
use bpf_broker.Proto.Handler.{Client, flush_command, flushed_reply, answer_always, handle}
use bpf_broker.Proto.Handler.Topic.{IsLine, ends_line, read_topic-line}
use bpf_broker.Proto.Handler.Commands.{handle-flush}
use bpf_broker.Proto.Handler.Reachable.{Reachable, Reachable-WellFormed}
use bpf_broker.Broker.{tables_of, topics_of}
use bpf_broker.Broker.Ingress.{Traffic, Serves, ingress, ingress-Serves}
use bpf_broker.Broker.Fanout.{Arrives}

-- To serve no one is to send nothing.
no_frames :
    (s : Skb) (t : Traffic) → Serves s [] t → t ≡ record { to_stack = false; sent = s.clones }
no_frames s t served = silent served.frames served.sent served.forwarded
  where
    silent :
        (l : List Frame)
        → t.sent ≡ s.clones ++ l
        → Pairwise (IsForwarded s.packet) [] l
        → t ≡ record { to_stack = false; sent = s.clones }
    silent [] e none_sent =
        ap₂ (λ a b. record { to_stack = a; sent = b }) served.off_stack (e ∙ append-nil s.clones)
    silent (f ∷ l) e none_sent = absurd none_sent

module _ (p : Platform) (env : Env) (fuel : ℕ) (client : Client) (buf : List ℕ) (s : Store p)
    (t raw : List ℕ) (d : ℕ) where
  -- Take maps that the service reaches by any sequence of datagrams, each from an address of 32
  -- bits and a port of 16 and handled under Ready, in which a topic is registered whose map can be
  -- opened, and more fuel than the topic has subscribers. A FLUSH with that topic, of fewer than 20
  -- characters and with the end of a line behind it, is answered by FLUSHED. On the resulting maps
  -- every PUBLISH of the topic that arrives as bytes with a valid IP header, with helpers that do
  -- not fail and that do what they are documented to do for the sizes and flags in use, is kept off
  -- the stack and sent to no one.
  pub flush-silences :
      (id : ℕ)
      → Reachable p buf s
      → IsLine t
      → length t < 20
      → ends_line d ≡ true
      → id_of p s (key_of t) ≡ some id
      → env.fd_by_id ≡ true
      → length (subscribers p s id) < fuel
      → (h : Helpers) → Works h
      → (c : Counters) (skb : Skb) → Arrives h skb (key_of t)
      → (s' : Store p) × (handle p env fuel client (flush_command ++ (t ++ d ∷ raw)) s
          ≡ done (some flushed_reply, s'))
        × (ingress h (tables_of p s') (topics_of p s') c skb
            ≡ record { to_stack = false; sent = skb.clones })
  flush-silences id r line short end at fd enough h works c skb arrives =
      let (len, text, key) = read_topic-line t raw d line short end in
      let (s', run, f, valid) =
        flush_topic-IsFlushed p env fuel (length t) id (read_topic (t ++ d ∷ raw)) s len short
          (ap (id_of p s) key ∙ at) fd enough (Reachable-WellFormed p r) in
      let g = subst (λ k. IsFlushed p env k id s s') key f in
      let at' : id_of p s' (key_of t) ≡ some id =
        ap (λ m. p.topics.lookup_elem m (key_of t)) g.changes.same_topics ∙ at in
      let now : Traffic = ingress h (tables_of p s') (topics_of p s') c skb in
      (
        s',
        handle-flush p env fuel client s t raw line d short end
            ∙ ap (answer_always p env flushed_reply) run,
        elim (ingress-Serves p s' c h skb (key_of t) id valid works arrives.bytes arrives.pulled
            arrives.valid arrives.publishes at'
            (subst (All (λ n. n < 2 ^ 64)) (sym g.no_subscribers) tt)) [
              | inl dropped ↦ dropped.dropped
              | inr served ↦
                  no_frames skb now (subst (λ l. Serves skb l now) g.no_subscribers served)
            ],
      )
