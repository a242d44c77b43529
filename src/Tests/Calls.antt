-- ===== src/Tests/Calls.antt =====
-- add_subscriber and flush_topic at the stores of the sample run.
use bpf_broker.Prelude.{◌≡◌, refl, arith}
use native.Mathlib.Decide.{ℕ_discrete, dec_lt}
use bpf_broker.Maps.Assoc.{assoc_map, update, update_with}
use bpf_broker.Proto.Text.{strlen, padded, pack, swap32}
use bpf_broker.Proto.Store.{Store}
use bpf_broker.Proto.Service.{
  Status, ok, done, add_topic, create_topic, add_subscriber, insert_subscriber, count_subscriber,
  store_first, flush_topic,
}
use bpf_broker.Proto.Service.Invariant.{Key-discrete, WellFormed}
use bpf_broker.Proto.Service.Subscribe.{IsSubscription, add_subscriber-IsSubscription}
use bpf_broker.Proto.Service.Flush.{IsFlushed, flush_topic-IsFlushed}
use bpf_broker.Proto.Handler.Reachable.{Reachable-WellFormed}
use bpf_broker.Tests.Samples.{key_t}
use bpf_broker.Tests.Service.{sample, sample_env, name_t, registered_t, subscribed_t, no_count}
use bpf_broker.Tests.Broker.{reached_first, reached_second}

add_subscriber-IsSubscription_example :
    (status : Status) × (s' : Store sample) × (add_subscriber sample sample_env name_t 0x0a000002
        5000 registered_t
      ≡ done (status, s'))
    × IsSubscription sample sample_env
        (padded 1 name_t)
        7
        (pack 0x0a000002 5000)
        registered_t
        status
        s'
unfolding add_topic create_topic add_subscriber insert_subscriber count_subscriber store_first
    strlen padded pack swap32 assoc_map update update_with dec_lt Key-discrete ℕ_discrete
add_subscriber-IsSubscription_example =
    add_subscriber-IsSubscription sample sample_env 1 7 0x0a000002 5000 name_t registered_t
      (subscribed_t.inner 7) refl (omega arith) refl refl refl (λ n q. cc q)
      (λ c e. absurd (cc (no_count key_t, e))) (Reachable-WellFormed sample reached_first)

flush_topic-IsFlushed_example :
    (s' : Store sample) × (flush_topic sample sample_env 2 name_t subscribed_t ≡ done (ok, s'))
    × IsFlushed sample sample_env (padded 1 name_t) 7 subscribed_t s'
    × WellFormed sample s'
unfolding add_topic create_topic add_subscriber insert_subscriber count_subscriber store_first
    strlen padded pack swap32 assoc_map update update_with dec_lt Key-discrete ℕ_discrete
flush_topic-IsFlushed_example =
    flush_topic-IsFlushed sample sample_env 2 1 7 name_t subscribed_t refl (omega arith) refl refl
      (omega arith) (Reachable-WellFormed sample reached_second)
