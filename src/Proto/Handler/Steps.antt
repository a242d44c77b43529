-- ===== src/Proto/Handler/Steps.antt =====
-- The command loop as steps of the view.
use bpf_broker.Prelude.{
  ℕ, ◌-◌, ◌^◌, ◌≤◌, ◌<◌, ◌≡◌, sym, ◌⊎◌, inl, inr, arith, true, false, length, drop, List, ◌++◌,
  none, some, Option-cases, Bool-cases,
}
use mathlib.Core.Path.{subst}
use bpf_broker.Parse.{Key}
use bpf_broker.Proto.Text.{strlen, strncmp, padded, printed, read_topic, swap32}
use bpf_broker.Frame.{swap16}
use bpf_broker.Proto.Store.{Platform, Store, Env}
use bpf_broker.Proto.Service.{
  ok, failed, done, overread, stuck, Run, add_topic, add_subscriber, flush_topic,
}
use bpf_broker.Proto.Service.Invariant.{id_of, count_of, subscribers}
use bpf_broker.Proto.Service.Register.{FreshId, add_topic-IsRegistration}
use bpf_broker.Proto.Service.Subscribe.{
  HasRoom, add_subscriber-IsSubscription, add_subscriber_unchanged,
}
use bpf_broker.Proto.Service.Flush.{flush_topic-IsFlushed, flush_topic_unchanged}
use bpf_broker.Proto.Service.Viewed.{
  IsViewOf, IsRegistration-IsViewOf, IsSubscription-IsViewOf, IsFlushed-IsViewOf,
}
use bpf_broker.Proto.Handler.{
  Client, packed_client, register_command, subscribe_command, flush_command, suback, flushed_reply,
  regack_if_ok, answer_always, handle,
}
use bpf_broker.Proto.Handler.Ends.{Ends, option-Ends, if-Ends, name-Ends}
use bpf_broker.Proto.View.{View}
use bpf_broker.Proto.View.Steps.{ViewStep, unchanged, registers, subscribes, flushes}

-- What a command is handled under: ids of new maps are new, the map of counts takes every topic, no
-- count is at the limit of 32 bits, and the fuel exceeds each topic's subscribers.
pub record Ready (p : Platform) (env : Env) (fuel : ℕ) (s : Store p) : Type 0 where
  pub fresh : FreshId p env s
  pub room : (t : Key) → HasRoom p env t s
  pub small : (t : Key) (c : ℕ) → count_of p s t ≡ some c → c < 2 ^ 32 - 1
  pub enough : (i : ℕ) → length (subscribers p s i) < fuel

-- Answers by the calls that they come from.
module _ (p : Platform) (env : Env) (P : Store p → Type 0) where
  regack_if_ok-Ends :
      (text : List ℕ) (run : Run p env) → Ends P run → Ends P (regack_if_ok p env text run)
  regack_if_ok-Ends text (done (ok, s)) k = k
  regack_if_ok-Ends text (done (failed, s)) k = k
  regack_if_ok-Ends text overread k = tt
  regack_if_ok-Ends text stuck k = k

  answer_always-Ends :
      (reply : List ℕ) (run : Run p env) → Ends P run → Ends P (answer_always p env reply run)
  answer_always-Ends reply (done (status, s)) k = k
  answer_always-Ends reply overread k = tt
  answer_always-Ends reply stuck k = k

-- The maps show a view one step on.
abbrev pub StepsTo : (p : Platform) → Client → View → Store p → Type 0
StepsTo p client v s = (v' : View) × ViewStep client v v' × IsViewOf p v' s

module _ (p : Platform) (env : Env) (fuel : ℕ) (client : Client) (v : View) (s : Store p)
    (w : IsViewOf p v s) (h : Ready p env fuel s) where
  stays : StepsTo p client v s
  stays = (v, unchanged, w)

  add_topic-StepsTo :
      (topic_name : List ℕ) → Ends (StepsTo p client v) (add_topic p env topic_name s)
  unfolding add_topic
  add_topic-StepsTo topic_name =
      name-Ends (StepsTo p client v) topic_name s (add_topic p env topic_name s) stays
        (λ e. ground arith) (λ len e long. ground arith)
        λ len e short.
          let key = padded len topic_name in
          let (status, s', run, reg) =
            add_topic-IsRegistration p env len topic_name s e short h.fresh w.valid in
          subst (Ends (StepsTo p client v)) (sym run)
            (elim (IsRegistration-IsViewOf p env key s s' status v reg w) [
              | inl same ↦ (v, unchanged, same)
              | inr made ↦ (_, registers key, made)
            ])

  add_subscriber-StepsTo :
      (topic_name : List ℕ)
      → Ends
          (StepsTo p client v)
          (add_subscriber p env topic_name (swap32 client.s_addr) (swap16 client.sin_port) s)
  unfolding add_subscriber
  add_subscriber-StepsTo topic_name =
      let ip = swap32 client.s_addr in
      let port = swap16 client.sin_port in
      name-Ends (StepsTo p client v) topic_name s (add_subscriber p env topic_name ip port s) stays
        (λ e. ground arith) (λ len e long. ground arith)
        λ len e short.
          let key = padded len topic_name in
          elim (subscribable len e) [
            | inl refused ↦
                subst (Ends (StepsTo p client v))
                  (sym (add_subscriber_unchanged p env len ip port topic_name s e refused)) stays
            | inr (id, subs, at, fd, inserting) ↦
                let (status, s', run, sub) =
                  add_subscriber-IsSubscription p env len id ip port topic_name s subs e short at fd
                    inserting (h.room key) (h.small key) w.valid in
                subst (Ends (StepsTo p client v)) (sym run) (
                  _,
                  subscribes key,
                  IsSubscription-IsViewOf p env key id (packed_client client) s s' status v at sub
                      w,
                )
          ]
    where
      subscribable :
          (len : ℕ)
          → strlen topic_name ≡ some len
          → ((20 ≤ len)
              ⊎ (env.fd_by_id ≡ false)
              ⊎ ((id : ℕ)
                  → id_of p s (padded len topic_name) ≡ some id
                  → p.subs.update_elem (s.inner id) (packed_client client) env.dummy ≡ none))
            ⊎ ((id : ℕ) × (subs : p.subs.Map) × (id_of p s (padded len topic_name) ≡ some id)
                × (env.fd_by_id ≡ true)
                × (p.subs.update_elem (s.inner id) (packed_client client) env.dummy ≡ some subs))
      subscribable len e = elim (Bool-cases env.fd_by_id) [
        | inr closed ↦ inl (inr (inl closed))
        | inl fd ↦ elim (Option-cases (id_of p s (padded len topic_name))) [
          | inl unknown ↦ inl (inr (inr (λ id at. absurd (cc (unknown, at)))))
          | inr (id, at) ↦
              elim (Option-cases
                (p.subs.update_elem (s.inner id) (packed_client client) env.dummy)) [
                  | inl full ↦
                      inl (inr (inr (λ j q. let same : j ≡ id = cc (q, at) in rw same full)))
                  | inr (subs, inserting) ↦ inr (id, subs, at, fd, inserting)
                ]
        ]
      ]

  flush_topic-StepsTo :
      (topic_name : List ℕ) → Ends (StepsTo p client v) (flush_topic p env fuel topic_name s)
  unfolding flush_topic
  flush_topic-StepsTo topic_name =
      name-Ends (StepsTo p client v) topic_name s (flush_topic p env fuel topic_name s) stays
        (λ e. ground arith) (λ len e long. ground arith)
        λ len e short.
          let key = padded len topic_name in
          elim (Option-cases (id_of p s key)) [
            | inl unknown ↦ unflushed topic_name len e (inr (inl unknown))
            | inr (id, at) ↦ elim (Bool-cases env.fd_by_id) [
              | inr closed ↦ unflushed topic_name len e (inr (inr closed))
              | inl fd ↦
                  let (s', run, f, valid) =
                    flush_topic-IsFlushed p env fuel len id topic_name s e short at fd (h.enough id)
                      w.valid in
                  subst (Ends (StepsTo p client v)) (sym run)
                    (_, flushes key, IsFlushed-IsViewOf p env key id s s' v at f valid w)
            ]
          ]
    where
      unflushed :
          (topic_name : List ℕ) (len : ℕ)
          → strlen topic_name ≡ some len
          → (20 ≤ len) ⊎ (id_of p s (padded len topic_name) ≡ none) ⊎ (env.fd_by_id ≡ false)
          → Ends (StepsTo p client v) (flush_topic p env fuel topic_name s)
      unflushed topic_name len e why =
          let (status, run) = flush_topic_unchanged p env fuel len topic_name s e why in
          subst (Ends (StepsTo p client v)) (sym run) stays

  -- For every client and buffer, on maps that are those of a view and under Ready: a command of the
  -- service is not stuck in its loop, and unless it reads past the end of an array it ends with
  -- maps that are those of the view one step on, the steps being to register a topic, to add the
  -- client to a topic, to empty a topic, and to change nothing.
  pub handle-StepsTo : (buf : List ℕ) → Ends (StepsTo p client v) (handle p env fuel client buf s)
  unfolding handle
  handle-StepsTo buf =
      let register = read_topic (drop 9 buf) in
      let subscribe = read_topic (drop 10 buf) in
      let Q = StepsTo p client v in
      if-Ends Q (strncmp buf register_command) _ _
        (option-Ends Q (printed register) _
          (λ text. regack_if_ok-Ends p env Q text _ (add_topic-StepsTo register)))
        (if-Ends Q (strncmp buf subscribe_command) _ _
          (option-Ends Q (printed subscribe) _ (λ text.
            answer_always-Ends p env Q (suback ++ text) _ (add_subscriber-StepsTo subscribe)))
          (if-Ends Q (strncmp buf flush_command) _ _
            (answer_always-Ends p env Q flushed_reply _
              (flush_topic-StepsTo (read_topic (drop 6 buf))))
            stays))
