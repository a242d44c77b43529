-- ===== src/Tests/Service.antt =====
-- The service at sample names, with maps of a few entries.
use bpf_broker.Prelude.{
  ℕ, ◌≡◌, inl, inr, ◌==◌, Bool-cases, refl, arith, true, List, [], ◌∷◌, none, some,
}
use native.Mathlib.Decide.{ℕ_discrete, dec_lt}
use bpf_broker.Parse.{Key}
use bpf_broker.Maps.Assoc.{assoc_map, update, update_with}
use bpf_broker.Proto.Text.{strlen, padded, pack, swap32}
use bpf_broker.Proto.Store.{Platform, Store, Env}
use bpf_broker.Proto.Service.{
  Status, ok, Outcome, done, overread, stuck, add_topic, create_topic, add_subscriber,
  insert_subscriber, count_subscriber, store_first,
}
use bpf_broker.Proto.Service.Invariant.{Key-discrete, id_of, count_of, first_of_topic, subscribers}
use bpf_broker.Proto.Service.Register.{IsRegistration, add_topic-IsRegistration}
use bpf_broker.Proto.Handler.Reachable.{new_store, new_store-WellFormed}
use bpf_broker.Tests.Samples.{key_t, packed_subscriber}

abbrev pub sample : Platform
sample = record {
  topics = assoc_map Key-discrete 4;
  counts = assoc_map Key-discrete 4;
  firsts = assoc_map Key-discrete 4;
  subs = assoc_map ℕ_discrete 256;
}

abbrev pub sample_env : Env
sample_env = record { fd_by_id = true; created = some 7; dummy = 1 }

-- "t"
abbrev pub name_t : List ℕ
name_t = b't' ∷ 0 ∷ []

abbrev pub store_of : Outcome (Status × Store sample) → Store sample
store_of (done (status, s)) = s
store_of overread = new_store sample
store_of stuck = new_store sample

abbrev pub registered_t : Store sample
registered_t = store_of (add_topic sample sample_env name_t (new_store sample))

pub registers : add_topic sample sample_env name_t (new_store sample) ≡ done (ok, registered_t)
unfolding add_topic create_topic add_subscriber insert_subscriber count_subscriber store_first
    strlen padded pack swap32 assoc_map update update_with dec_lt Key-discrete ℕ_discrete
registers = refl

pub registered : id_of sample registered_t key_t ≡ some 7
unfolding add_topic create_topic add_subscriber insert_subscriber count_subscriber store_first
    strlen padded pack swap32 assoc_map update update_with dec_lt Key-discrete ℕ_discrete
registered = refl

pub no_count : (t : Key) → count_of sample registered_t t ≡ none
unfolding add_topic create_topic add_subscriber insert_subscriber count_subscriber store_first
    strlen padded pack swap32 assoc_map update update_with dec_lt Key-discrete ℕ_discrete
no_count t = refl

pub no_subscribers : (i : ℕ) → subscribers sample registered_t i ≡ []
unfolding add_topic create_topic add_subscriber insert_subscriber count_subscriber store_first
    strlen padded pack swap32 assoc_map update update_with dec_lt Key-discrete ℕ_discrete
no_subscribers i = elim (Bool-cases (i == 7)) [ inl e ↦ rw e | inr e ↦ rw e ]

-- 10.0.0.2:5000 subscribes.
abbrev pub subscribed_t : Store sample
subscribed_t = store_of (add_subscriber sample sample_env name_t 0x0a000002 5000 registered_t)

subscribes :
    add_subscriber sample sample_env name_t 0x0a000002 5000 registered_t ≡ done (ok, subscribed_t)
unfolding add_topic create_topic add_subscriber insert_subscriber count_subscriber store_first
    strlen padded pack swap32 assoc_map update update_with dec_lt Key-discrete ℕ_discrete
subscribes = refl

counted_once : count_of sample subscribed_t key_t ≡ some 1
unfolding add_topic create_topic add_subscriber insert_subscriber count_subscriber store_first
    strlen padded pack swap32 assoc_map update update_with dec_lt Key-discrete ℕ_discrete
counted_once = refl

first_stored : first_of_topic sample subscribed_t key_t ≡ some packed_subscriber
unfolding add_topic create_topic add_subscriber insert_subscriber count_subscriber store_first
    strlen padded pack swap32 assoc_map update update_with dec_lt Key-discrete ℕ_discrete
first_stored = refl

-- The same client again: the map has one entry and the count is two.
abbrev resubscribed_t : Store sample
resubscribed_t = store_of (add_subscriber sample sample_env name_t 0x0a000002 5000 subscribed_t)

counted_twice : count_of sample resubscribed_t key_t ≡ some 2
unfolding add_topic create_topic add_subscriber insert_subscriber count_subscriber store_first
    strlen padded pack swap32 assoc_map update update_with dec_lt Key-discrete ℕ_discrete
counted_twice = refl

single_entry : subscribers sample resubscribed_t 7 ≡ packed_subscriber ∷ []
unfolding add_topic create_topic add_subscriber insert_subscriber count_subscriber store_first
    strlen padded pack swap32 assoc_map update update_with dec_lt Key-discrete ℕ_discrete
single_entry = refl

add_topic-IsRegistration_example :
    (status : Status) × (s' : Store sample) × (add_topic sample sample_env name_t (new_store sample)
      ≡ done (status, s'))
    × IsRegistration sample sample_env (padded 1 name_t) (new_store sample) status s'
unfolding strlen
add_topic-IsRegistration_example =
    add_topic-IsRegistration sample sample_env 1 name_t (new_store sample) refl (omega arith)
      (λ id e t. λ q. cc (sample.topics.lookup-empty t, q)) (new_store-WellFormed sample)
