-- ===== src/ArrayProto/Fanout.antt =====
-- A SUBSCRIBE to the service over arrays, and the cloning program after it.
use bpf_broker.Proto.Handler.{packed_client, FitsClient, Client, subscribe_command, suback}
use bpf_broker.Proto.View.{View, replaced_self, view_subscribe, view_subscribe_known}
use bpf_broker.Proto.View.Steps.{All-append, ViewReachable-FitsView}
use bpf_broker.Prelude.{
  ℕ, suc, ◌^◌, ◌<◌, ◌≡◌, refl, sym, ap, ◌∙◌, ◌≢◌, inl, inr, arith, true, length, List, [], ◌∷◌,
  ◌++◌, Option, none, some, Option-cases,
}
use mathlib.Core.Path.{subst}
use bpf_broker.Frame.{Frame, IsBytes, swap16}
use bpf_broker.Parse.{Key}
use bpf_broker.Parse.Topic.{key_of}
use bpf_broker.Xdp.{increment}
use bpf_broker.Xdp.Publish.{IsPublish}
use bpf_broker.CloneTx.{xdp_clone_tx, original}
use bpf_broker.Tc.Serve.{Pairwise}
use bpf_broker.Proto.Text.{strncmp, read_topic, padded, swap32}
use bpf_broker.Proto.Service.{ok, done}
use bpf_broker.Proto.Handler.Topic.{IsLine, ends_line, read_topic-line}
use bpf_broker.Proto.Handler.Commands.{printed-line}
use bpf_broker.Broker.Pack.{packed_pack}
use bpf_broker.ArrayProto.{
  ArrayPlatform, ArrayStore, ArrayEnv, max_subscribers, count_or_zero, add_subscriber,
}
use bpf_broker.ArrayProto.Handler.{answer_anyway, handle}
use bpf_broker.ArrayProto.View.{Lists, id_of, count_of, IsTopicOf, IsTopic, Represents}
use bpf_broker.ArrayProto.Change.{After}
use bpf_broker.ArrayProto.Subscribe.{Accepts, add_subscriber-appends}
use bpf_broker.ArrayProto.Reachable.{ArrayReachable, ArrayReachable-Represents}
use bpf_broker.ArrayProto.Delivery.{clone_tables_of, copies, IsDelivered, verdict_for, delivered}

verdict_for-append :
    (l : List ℕ) (packed : ℕ)
    → verdict_for (l ++ packed ∷ []) ≡ xdp_clone_tx (length (l ++ packed ∷ []))
verdict_for-append [] packed = refl
verdict_for-append (x ∷ l) packed = refl

module _ (p : ArrayPlatform) (env : ArrayEnv) (client : Client) (s : ArrayStore p) where
  handle-subscribe_lem :
      (t raw : List ℕ) (d : ℕ)
      → IsLine t
      → length t < 20
      → ends_line d ≡ true
      → handle p env client (subscribe_command ++ (t ++ d ∷ raw)) s
        ≡ answer_anyway p env (suback ++ t) (
            add_subscriber p env
              (read_topic (t ++ d ∷ raw))
              (swap32 client.s_addr)
              (swap16 client.sin_port)
              s)
  unfolding handle strncmp
  handle-subscribe_lem t raw d line short end =
      let text = printed-line t raw d line short end in ground arith

  -- The topic of a view after a subscription.
  subscribed :
      (key : Key) (packed : ℕ) (l : List ℕ) (v : View) (s' : ArrayStore p)
      → v key ≡ some l
      → Represents p s' (view_subscribe key packed v)
      → IsTopic p s' key (some (l ++ packed ∷ []))
  subscribed key packed l v s' here w =
      subst (IsTopic p s' key)
        (ap (λ u. u key) (view_subscribe_known key packed v l here)
          ∙ replaced_self v key (l ++ packed ∷ []))
        (w.topic key)

  module _ (buf t raw : List ℕ) (d id : ℕ) (r : ArrayReachable p buf s)
      (fits_client : FitsClient client) (line : IsLine t) (short : length t < 20)
      (end : ends_line d ≡ true) (at : id_of p s (key_of t) ≡ some id) (fd : env.fd_by_id ≡ true)
      (few : count_or_zero (count_of p s (key_of t)) < max_subscribers)
      (room : p.counts.update_elem s.topic_sub_cnt
          (key_of t)
          (suc (count_or_zero (count_of p s (key_of t))))
        ≢ none) where
    abbrev key : Key
    key = key_of t

    -- The list of the topic before.
    known_topic :
        (v : View)
        → Represents p s v
        → (l : List ℕ) × (v key ≡ some l) × IsTopicOf p (s.inner id) (count_of p s key) l
    known_topic v w = elim (Option-cases (v key)) [
      | inl e ↦ absurd (cc (at, (subst (IsTopic p s key) e (w.topic key)).0))
      | inr (l, e) ↦
          let (i, at_i, h) = subst (IsTopic p s key) e (w.topic key) in
          let same : i ≡ id = cc (at, at_i) in
          (l, e, subst (λ j. IsTopicOf p (s.inner j) (count_of p s key) l) same h)
    ]

    accepted :
        (v : View) (l : List ℕ)
        → v key ≡ some l
        → IsTopicOf p (s.inner id) (count_of p s key) l
        → Accepts p env s v key
    accepted v l here h = record {
      fd = fd;
      l = l;
      here = here;
      few = omega (arith, few, h.counted);
      room = λ e.
          room (ap (λ (n : ℕ). p.counts.update_elem s.topic_sub_cnt key (suc n)) h.counted ∙ e);
    }

    stored :
        (v : View)
        → Represents p s v
        → Accepts p env s v key
        → (s' : ArrayStore p) × (handle p env client (subscribe_command ++ (t ++ d ∷ raw)) s
            ≡ done (some (suback ++ t), s'))
          × Represents p s' (view_subscribe key (packed_client client) v)
    stored v w a =
        let (len, text, same) = read_topic-line t raw d line short end in
        let (status, s', run, after, accepts) =
          add_subscriber-appends p env s v (length t) (swap32 client.s_addr)
            (swap16 client.sin_port) (read_topic (t ++ d ∷ raw)) w len short in
        let good : status ≡ ok = accepts.1 (subst (Accepts p env s v) (sym same) a) in
        (
          s',
          handle-subscribe_lem t raw d line short end ∙ ap (answer_anyway p env (suback ++ t)) run,
          subst (λ k. Represents p s' (view_subscribe k (packed_client client) v)) same
              (subst
                (λ st. After p env st s' v (
                  view_subscribe (padded (length t) (read_topic (t ++ d ∷ raw)))
                    (packed_client client) v))
                good after),
        )

    -- Take maps that the service over arrays reaches by any sequence of datagrams, in which a topic
    -- is registered, its array can be opened and has fewer than 2048 subscribers, and the map of
    -- counts takes one more. A SUBSCRIBE with that topic, of fewer than 20 characters and with the
    -- end of a line behind it, from an address of 32 bits and a port of 16, is answered by SUBACK.
    -- On the resulting maps the original of every PUBLISH of the topic made of bytes asks for as
    -- many copies as there are subscribers now, and these copies are all transmitted, one to each
    -- subscriber that the array held, in order, and the last to the client.
    pub array_subscribe-delivers :
        (pub_counter : Option ℕ) (f : Frame)
        → IsBytes f
        → IsPublish f (key_of t)
        → (s' : ArrayStore p) × (l : List ℕ) × (handle p env client
              (subscribe_command ++ (t ++ d ∷ raw))
              s
            ≡ done (some (suback ++ t), s'))
          × (length l ≡ count_or_zero (count_of p s (key_of t)))
          × Lists p (s.inner id) 0 l
          × (original (clone_tables_of p s') pub_counter f
              ≡ (xdp_clone_tx (length (l ++ packed_client client ∷ [])), increment pub_counter))
          × Pairwise
              (IsDelivered f)
              (l ++ packed_client client ∷ [])
              (copies (clone_tables_of p s') f 0 (length (l ++ packed_client client ∷ [])))
    array_subscribe-delivers pub_counter f bytes publishes =
        let (v, reached, w) = ArrayReachable-Represents p r in
        let (l, here, h) = known_topic v w in
        let (s', run, w') = stored v w (accepted v l here h) in
        let packed = packed_client client in
        let (id', at', h') = subscribed key packed l v s' here w' in
        let fits =
          All-append (λ n. n < 2 ^ 64) l packed (ViewReachable-FitsView reached key l here)
            (packed_pack client.s_addr client.sin_port fits_client.address fits_client.port).2 in
        let (verdict, all) =
          delivered p s' pub_counter f key bytes publishes id' at' (l ++ packed ∷ []) h' fits in
        (
          s',
          l,
          run,
          sym h.counted,
          h.entries,
          verdict ∙ ap (λ (a : ℕ). (a, increment pub_counter)) (verdict_for-append l packed),
          all,
        )
