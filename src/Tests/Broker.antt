-- ===== src/Tests/Broker.antt =====
-- A run of the service, and the XDP program after it.
use bpf_broker.Proto.Handler.{
  FitsClient, packed_client, Client, receive, handle, register_command, subscribe_command, regack,
  suback,
}
use bpf_broker.Prelude.{
  ℕ, ◌≡◌, inl, refl, ap, arith, true, length, replicate, List, [], ◌∷◌, ◌++◌, none, some,
}
use native.Mathlib.Decide.{ℕ_discrete, dec_lt}
use bpf_broker.Frame.{load8, load16, load32, ip_daddr, udp_dest}
use bpf_broker.Parse.Topic.{key_of}
use bpf_broker.Rewrite.Reply.{IsForwarded}
use bpf_broker.Parse.{parse_udp_packet, starts_with, extract_topic_id}
use bpf_broker.Maps.Assoc.{assoc_map, update, update_with}
use bpf_broker.Xdp.{tx, xdp_broker}
use bpf_broker.Proto.Text.{strlen, padded, pack, strncmp, printed, read_topic, trim, swap32}
use bpf_broker.Proto.Store.{Store, Env}
use bpf_broker.Proto.Service.{
  done, add_topic, create_topic, add_subscriber, insert_subscriber, count_subscriber, store_first,
}
use bpf_broker.Proto.Service.Invariant.{Key-discrete, WellFormed}
use bpf_broker.Proto.Handler.Steps.{Ready, StepsTo, handle-StepsTo}
use bpf_broker.Proto.Handler.Ends.{Ends}
use bpf_broker.Broker.{topics_of}
use bpf_broker.Proto.Service.Viewed.{topics_of-IsViewOf}
use bpf_broker.Proto.Handler.Reachable.{new_store, Reachable, start, step, Reachable-WellFormed}
use bpf_broker.Broker.{tables_of}
use bpf_broker.Broker.FastPath.{Admits, subscribe-publish}
use bpf_broker.Tests.Samples.{publish_frame, publish_frame-IsBytes, fresh}
use bpf_broker.Tests.Xdp.{publish_frame-IsPublish}
use bpf_broker.Tests.Service.{
  sample, sample_env, registered_t, subscribed_t, no_count, no_subscribers,
}

abbrev pub quiet_env : Env
quiet_env = record { fd_by_id = true; created = none; dummy = 1 }

-- 10.0.0.2:5000
abbrev pub client : Client
client = record { s_addr = 0x0200000a; sin_port = 0x8813 }

pub client-FitsClient : FitsClient client
client-FitsClient = record { address = omega arith; port = omega arith }

abbrev pub buffer : List ℕ
buffer = replicate 1024 0

abbrev pub registering : List ℕ
registering = register_command ++ b't' ∷ []

abbrev pub subscribing : List ℕ
subscribing = subscribe_command ++ b't' ∷ []

abbrev pub first_buffer : List ℕ
first_buffer = receive buffer registering

abbrev pub second_buffer : List ℕ
second_buffer = receive (receive buffer registering) subscribing

pub Ready-first : Ready sample sample_env 1 (new_store sample)
unfolding assoc_map update update_with dec_lt
Ready-first = record {
  fresh = λ id e t q. cc q;
  room = λ t n q. cc q;
  small = λ t c e. absurd (cc e);
  enough = λ i. omega arith;
}

pub Ready-second : Ready sample quiet_env 1 registered_t
unfolding handle receive strncmp printed read_topic trim pack swap32 add_topic create_topic
    add_subscriber insert_subscriber count_subscriber store_first strlen padded assoc_map update
    update_with dec_lt Key-discrete ℕ_discrete
Ready-second = record {
  fresh = λ id e t q. cc e;
  room = λ t n q. cc q;
  small = λ t c e. absurd (cc (no_count t, e));
  enough = λ i. omega (arith, ap length (no_subscribers i));
}

pub registered_run :
    handle sample sample_env 1 client (receive buffer registering) (new_store sample)
    ≡ done (some (regack ++ b't' ∷ []), registered_t)
unfolding handle receive strncmp printed read_topic trim pack swap32 add_topic create_topic
    add_subscriber insert_subscriber count_subscriber store_first strlen padded assoc_map update
    update_with dec_lt Key-discrete ℕ_discrete
registered_run = refl

subscribed_run :
    handle sample quiet_env 1 client (receive (receive buffer registering) subscribing) registered_t
    ≡ done (some (suback ++ b't' ∷ []), subscribed_t)
unfolding handle receive strncmp printed read_topic trim pack swap32 add_topic create_topic
    add_subscriber insert_subscriber count_subscriber store_first strlen padded assoc_map update
    update_with dec_lt Key-discrete ℕ_discrete
subscribed_run = refl

pub reached_first : Reachable sample (receive buffer registering) registered_t
reached_first =
    step (start buffer refl) sample_env 1 client registering (some (regack ++ b't' ∷ []))
      client-FitsClient Ready-first registered_run

pub reached_second :
    Reachable sample (receive (receive buffer registering) subscribing) subscribed_t
reached_second =
    step reached_first quiet_env 1 client subscribing (some (suback ++ b't' ∷ [])) client-FitsClient
      Ready-second subscribed_run

transmitted : (xdp_broker (tables_of sample subscribed_t) fresh publish_frame).0 ≡ tx
unfolding handle receive strncmp printed read_topic trim pack swap32 add_topic create_topic
    add_subscriber insert_subscriber count_subscriber store_first strlen padded assoc_map update
    update_with dec_lt Key-discrete ℕ_discrete xdp_broker parse_udp_packet starts_with
    extract_topic_id load8 load16
transmitted = refl

Reachable-WellFormed_example : WellFormed sample subscribed_t
Reachable-WellFormed_example = Reachable-WellFormed sample reached_second

Admits-t : Admits sample quiet_env (key_of (b't' ∷ [])) (packed_client client) registered_t
unfolding handle receive strncmp printed read_topic trim pack swap32 add_topic create_topic
    add_subscriber insert_subscriber count_subscriber store_first strlen padded assoc_map update
    update_with dec_lt Key-discrete ℕ_discrete key_of
Admits-t = record {
  id = 7;
  at = refl;
  idle = inl refl;
  fd = refl;
  subs = subscribed_t.inner 7;
  inserting = refl;
  room = λ n q. cc q;
  storing = λ q. cc q;
}

subscribe-publish_example :
    (s' : Store sample) × (handle sample quiet_env 1 client
        (subscribe_command ++ (b't' ∷ 0 ∷ []))
        registered_t
      ≡ done (some (suback ++ b't' ∷ []), s'))
    × ((xdp_broker (tables_of sample s') fresh publish_frame).0 ≡ tx)
    × IsForwarded publish_frame
        (packed_client client)
        (xdp_broker (tables_of sample s') fresh publish_frame).1
    × (load32 (xdp_broker (tables_of sample s') fresh publish_frame).1 ip_daddr ≡ 0x0200000a)
    × (load16 (xdp_broker (tables_of sample s') fresh publish_frame).1 udp_dest ≡ 0x8813)
unfolding key_of
subscribe-publish_example =
    subscribe-publish sample quiet_env 1 client registered_t (b't' ∷ []) [] 0 fresh publish_frame
      (refl, tt) (omega arith) refl Admits-t (Reachable-WellFormed sample reached_first)
      (omega arith) (omega arith) publish_frame-IsBytes publish_frame-IsPublish

handle-StepsTo_example : Ends (StepsTo sample client (topics_of sample registered_t)) (
    handle sample quiet_env 1 client
      (receive (receive buffer registering) subscribing)
      registered_t)
handle-StepsTo_example =
    handle-StepsTo sample quiet_env 1 client (topics_of sample registered_t) registered_t
      (topics_of-IsViewOf sample registered_t (Reachable-WellFormed sample reached_first))
      Ready-second (receive (receive buffer registering) subscribing)
