-- ===== src/Tests/Fanout.antt =====
-- The sample frame through both programs, after commands of the service.
use bpf_broker.Prelude.{
  length, ◌<◌, false, Option, ℕ, ◌≡◌, refl, ◌⊎◌, ◌↔◌, true, List, [], ◌∷◌, ◌++◌, some, arith,
}
use mathlib.Core.Path.{subst}
use bpf_broker.Tc.{Skb}
use native.Mathlib.Decide.{ℕ_discrete, dec_lt}
use bpf_broker.Maps.{Holds, Distinct}
use bpf_broker.Maps.Assoc.{assoc_map, update, update_with}
use bpf_broker.Parse.Topic.{key_of}
use bpf_broker.Xdp.Publish.{IsCommand}
use bpf_broker.Proto.Text.{strlen, padded, pack, strncmp, printed, read_topic, trim, swap32}
use bpf_broker.Proto.Store.{Store}
use bpf_broker.Proto.Service.{
  done, add_topic, create_topic, add_subscriber, insert_subscriber, count_subscriber, store_first,
}
use bpf_broker.Proto.Service.Invariant.{Key-discrete, id_of, subscribers}
use bpf_broker.Proto.Service.Viewed.{IsViewOf}
use bpf_broker.Proto.View.{View}
use bpf_broker.Proto.View.Steps.{ViewReachable}
use bpf_broker.Proto.Handler.{
  packed_client, subscribe_command, suback, register_command, flush_command, flushed_reply, receive,
  handle,
}
use bpf_broker.Broker.{tables_of, topics_of}
use bpf_broker.Broker.Ingress.{Drops, Serves, ingress, ingress-passes}
use bpf_broker.Broker.Silence.{flush-silences}
use bpf_broker.Proto.Handler.Acknowledge.{IsAcknowledged, handle-register-IsAcknowledged}
use bpf_broker.Proto.Handler.Reachable.{new_store, new_store-WellFormed}
use bpf_broker.Broker.Fanout.{Arrives, ServesMembers, Takes, Reachable-delivers, subscribe-delivers}
use bpf_broker.Tests.Samples.{key_t, fresh}
use bpf_broker.Tests.Service.{sample, sample_env, registered_t, subscribed_t}
use bpf_broker.Tests.Broker.{
  client, client-FitsClient, quiet_env, first_buffer, second_buffer, reached_first, reached_second,
}
use bpf_broker.Tests.Forwards.{
  valid_frame-IsBytes, valid_frame-IsPublish, valid_header, valid_skb, working, working-Works,
}

valid_skb-Arrives : Arrives working valid_skb key_t
valid_skb-Arrives = record {
  bytes = valid_frame-IsBytes;
  pulled = refl;
  valid = valid_header;
  publishes = valid_frame-IsPublish;
}

registered_second : id_of sample subscribed_t key_t ≡ some 7
unfolding add_topic create_topic add_subscriber insert_subscriber count_subscriber store_first
    strlen padded pack swap32 assoc_map update update_with dec_lt Key-discrete ℕ_discrete
registered_second = refl

Reachable-delivers_example :
    (v : View) × (l : List ℕ) × ViewReachable v
    × IsViewOf sample v subscribed_t
    × (v key_t ≡ some l)
    × (Drops sample subscribed_t key_t valid_skb (
          ingress working
            (tables_of sample subscribed_t)
            (topics_of sample subscribed_t)
            fresh
            valid_skb)
        ⊎ ServesMembers sample subscribed_t working fresh valid_skb l)
Reachable-delivers_example =
    Reachable-delivers sample second_buffer subscribed_t reached_second key_t 7 registered_second
      working working-Works fresh valid_skb valid_skb-Arrives

Takes-t : Takes sample quiet_env (key_of (b't' ∷ [])) (packed_client client) registered_t
unfolding handle receive strncmp printed read_topic trim pack swap32 add_topic create_topic
    add_subscriber insert_subscriber count_subscriber store_first strlen padded assoc_map update
    update_with dec_lt Key-discrete ℕ_discrete key_of
Takes-t = record {
  id = 7;
  at = refl;
  fd = refl;
  subs = subscribed_t.inner 7;
  inserting = refl;
  room = λ n q. cc q;
  small = λ c e. absurd (cc e);
  storing = λ q. cc q;
}

subscribe-delivers_example :
    (s' : Store sample) × (handle sample quiet_env 1 client
        (subscribe_command ++ (b't' ∷ 0 ∷ []))
        registered_t
      ≡ done (some (suback ++ b't' ∷ []), s'))
    × (keys : List ℕ) × Distinct keys
    × ((k : ℕ)
        → Holds k keys
          ↔ (Holds k (subscribers sample registered_t Takes-t.id) ⊎ (k ≡ packed_client client)))
    × Serves valid_skb keys
        (ingress working (tables_of sample s') (topics_of sample s') fresh valid_skb)
unfolding key_of
subscribe-delivers_example =
    subscribe-delivers sample quiet_env 1 client first_buffer registered_t (b't' ∷ []) [] 0
      reached_first client-FitsClient (refl, tt) (omega arith) refl Takes-t working working-Works
      fresh valid_skb valid_skb-Arrives

-- An empty packet is no command.
abbrev empty_skb : Skb
empty_skb = record valid_skb { packet = [] }

empty-IsCommand : ¬ IsCommand []
empty-IsCommand c = absurd (omega (arith, c.udp.room))

ingress-passes_example :
    ingress working (tables_of sample subscribed_t) (topics_of sample subscribed_t) fresh empty_skb
    ≡ record { to_stack = true; sent = [] }
ingress-passes_example =
    ingress-passes working (tables_of sample subscribed_t) (topics_of sample subscribed_t) fresh
      empty_skb empty-IsCommand
      (λ f e c. empty-IsCommand (let same : f ≡ [] = cc e in subst IsCommand same c))

registered_line : id_of sample subscribed_t (key_of (b't' ∷ [])) ≡ some 7
unfolding add_topic create_topic add_subscriber insert_subscriber count_subscriber store_first
    strlen padded pack swap32 assoc_map update update_with dec_lt Key-discrete ℕ_discrete key_of
registered_line = refl

one_key : length (subscribers sample subscribed_t 7) < 2
unfolding add_topic create_topic add_subscriber insert_subscriber count_subscriber store_first
    strlen padded pack swap32 assoc_map update update_with dec_lt Key-discrete ℕ_discrete
one_key = omega arith

flush-silences_example :
    (s' : Store sample) × (handle sample quiet_env 2 client
        (flush_command ++ (b't' ∷ 0 ∷ []))
        subscribed_t
      ≡ done (some flushed_reply, s'))
    × (ingress working (tables_of sample s') (topics_of sample s') fresh valid_skb
        ≡ record { to_stack = false; sent = [] })
unfolding key_of
flush-silences_example =
    flush-silences sample quiet_env 2 client second_buffer subscribed_t (b't' ∷ []) [] 0 7
      reached_second (refl, tt) (omega arith) refl registered_line refl one_key working
      working-Works fresh valid_skb valid_skb-Arrives

handle-register-IsAcknowledged_example :
    (reply : Option (List ℕ)) × (s' : Store sample) × (handle sample sample_env 1 client
        (register_command ++ (b't' ∷ 0 ∷ []))
        (new_store sample)
      ≡ done (reply, s'))
    × IsAcknowledged sample sample_env (key_of (b't' ∷ [])) (b't' ∷ []) reply (new_store sample) s'
handle-register-IsAcknowledged_example =
    handle-register-IsAcknowledged sample sample_env 1 client (new_store sample) (b't' ∷ []) [] 0
      (refl, tt) (omega arith) refl (λ id e t q. cc (sample.topics.lookup-empty t, q))
      (new_store-WellFormed sample)
