-- ===== src/Broker/Fanout.antt =====
-- A PUBLISH after any sequence of commands, through both programs.
use bpf_broker.Prelude.{
  ℕ, ◌-◌, ◌^◌, ◌<◌, ◌≡◌, ◌≢◌, ◌⊎◌, ◌↔◌, inl, inr, sym, ap, ◌∙◌, true, length, List, [], ◌∷◌, ◌++◌,
  none, some,
}
use mathlib.Core.Path.{subst}
use bpf_broker.Frame.{IsBytes, swap16, ip_base}
use bpf_broker.Checksum.Sum.{word_sum, Verifies}
use bpf_broker.Parse.{Key}
use bpf_broker.Parse.Topic.{key_of}
use bpf_broker.Maps.{Holds, Distinct}
use bpf_broker.Xdp.{Counters}
use bpf_broker.Xdp.Publish.{IsPublish}
use bpf_broker.Tc.{Helpers, Skb}
use bpf_broker.Tc.Clones.{Works}
use bpf_broker.Proto.Text.{read_topic, swap32}
use bpf_broker.Proto.Store.{Platform, Store, Env}
use bpf_broker.Proto.Service.{Status, done, next_count}
use bpf_broker.Proto.Service.Invariant.{id_of, count_of, first_of_topic, subscribers}
use bpf_broker.Proto.Service.Subscribe.{HasRoom, IsSubscription, add_subscriber-IsSubscription}
use bpf_broker.Proto.Service.Viewed.{IsViewOf, IsTopicIn, known_topic, IsSubscription-IsViewOf}
use bpf_broker.Proto.View.{View, view_subscribe, view_subscribe_known, replaced_self}
use bpf_broker.Proto.View.Same.{SameMembers, Holds-append}
use bpf_broker.Proto.View.Steps.{ViewReachable, view_step, subscribes}
use bpf_broker.Proto.Handler.{
  Client, FitsClient, packed_client, subscribe_command, suback, answer_always, handle,
}
use bpf_broker.Proto.Handler.Topic.{IsLine, ends_line, read_topic-line}
use bpf_broker.Proto.Handler.Commands.{handle-subscribe}
use bpf_broker.Proto.Handler.Reachable.{
  Reachable, Reachable-WellFormed, Reachable-IsViewOf, IsViewOf-small,
}
use bpf_broker.Broker.{tables_of, topics_of}
use bpf_broker.Broker.Ingress.{Drops, Serves, ingress, ingress-Serves}

-- The members of a list and one more.
with_client :
    (k packed : ℕ) (keys old l : List ℕ)
    → SameMembers old l
    → SameMembers keys (l ++ packed ∷ [])
    → Holds k keys ↔ (Holds k old ⊎ (k ≡ packed))
with_client k packed keys old l same members = (
  λ e. elim ((Holds-append k packed l).0 ((members k).0 e)) [
    | inl u ↦ inl ((same k).1 u)
    | inr q ↦ inr q
  ],
  λ e.
      (members k).1
        ((Holds-append k packed l).1 (elim e [ inl u ↦ inl ((same k).0 u) | inr q ↦ inr q ])),
)

-- A PUBLISH of the topic arrives, made of bytes and with an IP header that verifies, which
-- bpf_skb_pull_data leaves as it is.
pub record Arrives (h : Helpers) (s : Skb) (key : Key) : Type 0 where
  pub bytes : IsBytes s.packet
  pub pulled : h.skb_pull_data s.packet ≡ some s.packet
  pub valid : Verifies (word_sum s.packet ip_base 10)
  pub publishes : IsPublish s.packet key

-- The subscribers of a topic whose list in the view is `l`: each is served once, and no other.
pub record ServesMembers (p : Platform) (st : Store p) (h : Helpers) (c : Counters) (s : Skb)
    (l : List ℕ) : Type 0 where
  pub keys : List ℕ
  pub once : Distinct keys
  pub members : SameMembers keys l
  pub serves : Serves s keys (ingress h (tables_of p st) (topics_of p st) c s)

module _ (p : Platform) (st : Store p) (v : View) (reached : ViewReachable v) (w : IsViewOf p v st)
    (key : Key) (l : List ℕ) (here : v key ≡ some l) (h : Helpers) (works : Works h) (c : Counters)
    (s : Skb) (arrives : Arrives h s key) where
  pub view-delivers :
      Drops p st key s (ingress h (tables_of p st) (topics_of p st) c s)
      ⊎ ServesMembers p st h c s l
  view-delivers =
      let (id, at, same) = subst (IsTopicIn p st key) here (w.topic key) in
      let small = IsViewOf-small p v st key id reached w at in
      elim (ingress-Serves p st c h s key id w.valid works arrives.bytes arrives.pulled
        arrives.valid arrives.publishes at small) [
          | inl d ↦ inl d
          | inr served ↦ inr (record {
            keys = subscribers p st id;
            once = p.subs.keys-Distinct (st.inner id);
            members = same;
            serves = served;
          })
        ]

-- On maps that the service reaches by any sequence of datagrams, each from an address of 32 bits
-- and a port of 16 and handled under Ready, with helpers that do not fail and that do what they are
-- documented to do for the sizes and flags in use, let a PUBLISH of a registered topic arrive as
-- bytes with a valid IP header. The maps are those of a view that some steps of the view reach, in
-- which the topic has a list `l`. The packet is kept off the stack, and one frame is sent to each
-- member of `l` and to no one else, the packet forwarded to it; or the topic's count is one without
-- a stored first subscriber, and the packet is dropped.
pub Reachable-delivers :
    (p : Platform) (buf : List ℕ) (st : Store p)
    → Reachable p buf st
    → (key : Key) (id : ℕ) → id_of p st key ≡ some id
    → (h : Helpers) → Works h
    → (c : Counters) (s : Skb) → Arrives h s key
    → (v : View) × (l : List ℕ) × ViewReachable v
      × IsViewOf p v st
      × (v key ≡ some l)
      × (Drops p st key s (ingress h (tables_of p st) (topics_of p st) c s)
          ⊎ ServesMembers p st h c s l)
Reachable-delivers p buf st r key id at h works c s arrives =
    let (v, reached, w) = Reachable-IsViewOf p r in
    let (l, here, same) = known_topic p v st key id w at in
    (v, l, reached, w, here, view-delivers p st v reached w key l here h works c s arrives)

module _ (p : Platform) (env : Env) where
  -- The topic is registered, its map takes the client, and the two other maps take the topic.
  pub record Takes (topic : Key) (packed : ℕ) (s : Store p) : Type 0 where
    pub id : ℕ
    pub at : id_of p s topic ≡ some id
    pub fd : env.fd_by_id ≡ true
    pub subs : p.subs.Map
    pub inserting : p.subs.update_elem (s.inner id) packed env.dummy ≡ some subs
    pub room : HasRoom p env topic s
    pub small : (c : ℕ) → count_of p s topic ≡ some c → c < 2 ^ 32 - 1
    pub storing : p.firsts.update_elem s.topic_first_sub topic packed ≢ none

  -- After a subscription that could store the first subscriber, no PUBLISH of the topic is dropped.
  not_dropped :
      (topic : Key) (id packed : ℕ) (s s' : Store p) (status : Status)
      → p.firsts.update_elem s.topic_first_sub topic packed ≢ none
      → IsSubscription p env topic id packed s status s'
      → count_of p s' topic ≡ some 1
      → first_of_topic p s' topic ≢ none
  not_dropped topic id packed s s' status storing sub one missing =
      let same : next_count (count_of p s topic) ≡ 1 = cc (sub.count, one) in
      cc (sub.first (sub.succeeds storing) same, missing)

  module _ (fuel : ℕ) (client : Client) (buf : List ℕ) (s : Store p) (t raw : List ℕ) (d : ℕ)
      (r : Reachable p buf s) (fits : FitsClient client) (line : IsLine t) (short : length t < 20)
      (end : ends_line d ≡ true) (a : Takes (key_of t) (packed_client client) s) where
    abbrev topic : Key
    topic = key_of t

    subscribed :
        (status : Status) × (s' : Store p) × (handle p env fuel client
            (subscribe_command ++ (t ++ d ∷ raw))
            s
          ≡ done (some (suback ++ t), s'))
        × IsSubscription p env topic a.id (packed_client client) s status s'
    subscribed =
        let (len, text, key) = read_topic-line t raw d line short end in
        let w = Reachable-WellFormed p r in
        let b = subst (λ k. Takes k (packed_client client) s) (sym key) a in
        let (status, s', run, sub) =
          add_subscriber-IsSubscription p env (length t) b.id (swap32 client.s_addr)
            (swap16 client.sin_port) (read_topic (t ++ d ∷ raw)) s b.subs len short b.at b.fd
            b.inserting b.room b.small w in
        (
          status,
          s',
          handle-subscribe p env fuel client s t raw line d short end
              ∙ ap (answer_always p env (suback ++ t)) run,
          subst (λ k. IsSubscription p env k a.id (packed_client client) s status s') key sub,
        )

    -- Take maps that the service reaches by any sequence of datagrams, each from an address of 32
    -- bits and a port of 16 and handled under Ready, in which a topic is registered, and that take
    -- this client and this topic (Takes). A SUBSCRIBE with that topic, of fewer than 20 characters
    -- and with the end of a line behind it, from an address of 32 bits and a port of 16, is
    -- answered by SUBACK. On the resulting maps every PUBLISH of the topic that arrives as bytes
    -- with a valid IP header, with helpers that do not fail and that do what they are documented to
    -- do for the sizes and flags in use, is kept off the stack by the two programs, and one frame
    -- is sent to each subscriber that the map had and to the client, and to no one else, the packet
    -- forwarded to it.
    pub subscribe-delivers :
        (h : Helpers)
        → Works h
        → (c : Counters) (skb : Skb) → Arrives h skb (key_of t)
        → (s' : Store p) × (handle p env fuel client (subscribe_command ++ (t ++ d ∷ raw)) s
            ≡ done (some (suback ++ t), s'))
          × (keys : List ℕ) × Distinct keys
          × ((k : ℕ) → Holds k keys ↔ (Holds k (subscribers p s a.id) ⊎ (k ≡ packed_client client)))
          × Serves skb keys (ingress h (tables_of p s') (topics_of p s') c skb)
    subscribe-delivers h works c skb arrives =
        let (status, s', run, sub) = subscribed in
        let (v, reached, w) = Reachable-IsViewOf p r in
        let (l, here, same) = known_topic p v s topic a.id w a.at in
        let packed = packed_client client in
        let v' = view_subscribe topic packed v in
        let w' = IsSubscription-IsViewOf p env topic a.id packed s s' status v a.at sub w in
        let here' : v' topic ≡ some (l ++ packed ∷ []) =
          ap (λ u. u topic) (view_subscribe_known topic packed v l here)
          ∙ replaced_self v topic (l ++ packed ∷ []) in
        elim (view-delivers p s' v' (view_step reached client fits (subscribes topic)) w' topic
          (l ++ packed ∷ []) here' h works c skb arrives) [
            | inl dropped ↦ absurd (
                not_dropped topic a.id packed s s' status a.storing sub dropped.one dropped.missing)
            | inr m ↦ (
              s',
              run,
              m.keys,
              m.once,
              λ k. with_client k packed m.keys (subscribers p s a.id) l same m.members,
              m.serves,
            )
          ]
