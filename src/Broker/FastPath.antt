-- ===== src/Broker/FastPath.antt =====
-- A PUBLISH after the commands that the service has handled.
use bpf_broker.Proto.Handler.{
  packed_client, Client, subscribe_command, suback, answer_always, handle,
}
use bpf_broker.Prelude.{
  ℕ, ◌-◌, ◌^◌, ◌<◌, ◌≡◌, refl, sym, ap, ◌∙◌, ◌≢◌, ◌⊎◌, arith, true, length, List, [], ◌∷◌, ◌++◌,
  Option, none, some,
}
use mathlib.Core.Path.{subst}
use bpf_broker.Frame.{Frame, IsBytes, load16, load32, swap16, ip_daddr, udp_dest}
use bpf_broker.Parse.{Key}
use bpf_broker.Parse.Topic.{key_of}
use bpf_broker.Rewrite.Reply.{IsForwarded}
use bpf_broker.Xdp.{tx, Counters, xdp_broker}
use bpf_broker.Xdp.Publish.{IsPublish}
use bpf_broker.Xdp.Verdict.{xdp_broker-tx_iff, xdp_broker-forwards}
use bpf_broker.Proto.Text.{strlen, padded, pack, read_topic, swap32}
use bpf_broker.Proto.Store.{Platform, Store, Env}
use bpf_broker.Proto.Service.{Status, done, next_count, add_subscriber}
use bpf_broker.Proto.Service.Invariant.{id_of, count_of, first_of_topic, subscribers, WellFormed}
use bpf_broker.Proto.Service.Subscribe.{HasRoom, add_subscriber-IsSubscription}
use bpf_broker.Proto.Handler.Topic.{IsLine, ends_line, read_topic-line}
use bpf_broker.Proto.Handler.Commands.{handle-subscribe}
use bpf_broker.Proto.Handler.Reachable.{Reachable, Reachable-WellFormed}
use bpf_broker.Broker.{tables_of}
use bpf_broker.Broker.Pack.{packed_pack}

-- On maps reached by any sequence of commands, each from an address of 32 bits and a port of 16 and
-- handled under Ready, a frame for which xdp_broker returns XDP_TX is a PUBLISH of a registered
-- topic, and the inner map of the topic has exactly one subscriber, the first that is stored.
pub xdp_broker-tx_sole :
    (p : Platform) (buf : List ℕ) (s : Store p) (c : Counters) (f : Frame)
    → Reachable p buf s
    → (xdp_broker (tables_of p s) c f).0 ≡ tx
    → (key : Key) × (packed : ℕ) × (id : ℕ) × IsPublish f key
      × (id_of p s key ≡ some id)
      × (first_of_topic p s key ≡ some packed)
      × (subscribers p s id ≡ packed ∷ [])
xdp_broker-tx_sole p buf s c f r h =
    let w = Reachable-WellFormed p r in
    let (key, packed, publishes, one, first) = (xdp_broker-tx_iff (tables_of p s) c f).0 h in
    let (id, at) = w.counted key 1 one in
    (key, packed, id, publishes, at, first, (w.topic key id at).single packed one first)

module _ (p : Platform) (env : Env) where
  -- The topic is registered and has no subscriber, and the maps take the packed client.
  pub record Admits (topic : Key) (packed : ℕ) (s : Store p) : Type 0 where
    pub id : ℕ
    pub at : id_of p s topic ≡ some id
    pub idle : (count_of p s topic ≡ none) ⊎ (count_of p s topic ≡ some 0)
    pub fd : env.fd_by_id ≡ true
    pub subs : p.subs.Map
    pub inserting : p.subs.update_elem (s.inner id) packed env.dummy ≡ some subs
    pub room : HasRoom p env topic s
    pub storing : p.firsts.update_elem s.topic_first_sub topic packed ≢ none

  -- The packed client is the topic's first and only subscriber.
  record Serves (topic : Key) (packed : ℕ) (s : Store p) : Type 0 where
    one : count_of p s topic ≡ some 1
    first : first_of_topic p s topic ≡ some packed

  idle_next : (o : Option ℕ) → (o ≡ none) ⊎ (o ≡ some 0) → next_count o ≡ 1
  idle_next none h = refl
  idle_next (some n) h = ground arith

  idle_small : (o : Option ℕ) → (o ≡ none) ⊎ (o ≡ some 0) → (c : ℕ) → o ≡ some c → c < 2 ^ 32 - 1
  idle_small o h c e = ground arith

  add_subscriber-Serves :
      (len ip port : ℕ) (topic_name : List ℕ) (s : Store p)
      → strlen topic_name ≡ some len
      → len < 20
      → Admits (padded len topic_name) (pack ip port) s
      → WellFormed p s
      → (status : Status) × (s' : Store p) × (add_subscriber p env topic_name ip port s
          ≡ done (status, s'))
        × Serves (padded len topic_name) (pack ip port) s'
  add_subscriber-Serves len ip port topic_name s e short a w =
      let topic = padded len topic_name in
      let (status, s', run, sub) =
        add_subscriber-IsSubscription p env len a.id ip port topic_name s a.subs e short a.at a.fd
          a.inserting a.room (idle_small (count_of p s topic) a.idle) w in
      let one : next_count (count_of p s topic) ≡ 1 = idle_next (count_of p s topic) a.idle in
      (
        status,
        s',
        run,
        record { one = sub.count ∙ ap some one; first = sub.first (sub.succeeds a.storing) one },
      )

  module _ (fuel : ℕ) (client : Client) (s : Store p) (t raw : List ℕ) (d : ℕ) where
    -- A SUBSCRIBE of the first subscriber.
    handle-Serves :
        IsLine t
        → length t < 20
        → ends_line d ≡ true
        → Admits (key_of t) (packed_client client) s
        → WellFormed p s
        → (s' : Store p) × (handle p env fuel client (subscribe_command ++ (t ++ d ∷ raw)) s
            ≡ done (some (suback ++ t), s'))
          × Serves (key_of t) (packed_client client) s'
    handle-Serves line short end a w =
        let (len, text, key) = read_topic-line t raw d line short end in
        let (status, s', run, served) =
          add_subscriber-Serves (length t) (swap32 client.s_addr) (swap16 client.sin_port)
            (read_topic (t ++ d ∷ raw)) s len short
            (subst (λ k. Admits k (packed_client client) s) (sym key) a) w in
        (
          s',
          handle-subscribe p env fuel client s t raw line d short end
              ∙ ap (answer_always p env (suback ++ t)) run,
          subst (λ k. Serves k (packed_client client) s') key served,
        )

    -- Take well-formed maps that register a topic without subscribers (its count is missing or 0)
    -- and that take this client (Admits). A SUBSCRIBE with that topic, of fewer than 20 characters
    -- and with the end of a line behind it, from an address of 32 bits and a port of 16, is
    -- answered by SUBACK. On the resulting maps xdp_broker transmits every PUBLISH of the topic
    -- made of bytes, as the client's forwarded frame, to the client's own address and port.
    pub subscribe-publish :
        (c : Counters) (f : Frame)
        → IsLine t
        → length t < 20
        → ends_line d ≡ true
        → Admits (key_of t) (packed_client client) s
        → WellFormed p s
        → client.s_addr < 2 ^ 32
        → client.sin_port < 2 ^ 16
        → IsBytes f
        → IsPublish f (key_of t)
        → (s' : Store p) × (handle p env fuel client (subscribe_command ++ (t ++ d ∷ raw)) s
            ≡ done (some (suback ++ t), s'))
          × ((xdp_broker (tables_of p s') c f).0 ≡ tx)
          × IsForwarded f (packed_client client) (xdp_broker (tables_of p s') c f).1
          × (load32 (xdp_broker (tables_of p s') c f).1 ip_daddr ≡ client.s_addr)
          × (load16 (xdp_broker (tables_of p s') c f).1 udp_dest ≡ client.sin_port)
    subscribe-publish c f line short end a w addr port bytes publishes =
        let (s', run, serves) = handle-Serves line short end a w in
        let (ip, dport, fits) = packed_pack client.s_addr client.sin_port addr port in
        let (forwarded, checked, counter) =
          xdp_broker-forwards (tables_of p s') c f (key_of t) (packed_client client) bytes fits
            publishes serves.one serves.first in
        (
          s',
          run,
          (xdp_broker-tx_iff (tables_of p s') c f).1
              (key_of t, packed_client client, publishes, serves.one, serves.first),
          forwarded,
          forwarded.daddr ∙ ip,
          forwarded.dest_port ∙ dport,
        )
