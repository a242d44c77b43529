-- ===== src/Tests/ArrayProto.antt =====
-- The service over arrays at a sample client, and the cloning program after it.
use bpf_broker.Proto.View.{View, view_subscribe, view_flush}
use bpf_broker.Proto.Handler.{
  FitsClient, packed_client, Client, receive, register_command, subscribe_command, regack, suback,
}
use bpf_broker.Proto.View.Steps.{ViewReachable}
use bpf_broker.Prelude.{
  suc, ◌≢◌, ℕ, ◌≡◌, ◌↔◌, refl, arith, false, true, length, replicate, List, [], ◌∷◌, ◌++◌, none,
  some,
}
use native.Mathlib.Decide.{ℕ_discrete, dec_lt}
use bpf_broker.Maps.Assoc.{assoc_map, update, update_with}
use bpf_broker.Maps.Arrays.{array_map}
use bpf_broker.CloneTx.{xdp_clone_tx, original}
use bpf_broker.Tc.Serve.{Pairwise}
use bpf_broker.Proto.Text.{strlen, padded, pack, strncmp, printed, read_topic, trim, swap32}
use bpf_broker.Proto.Service.{Status, ok, failed, done, overread, stuck}
use bpf_broker.Proto.Service.Invariant.{Key-discrete}
use bpf_broker.ArrayProto.{
  count_or_zero, ArrayPlatform, ArrayStore, ArrayEnv, create_array, add_topic, append_entry,
  add_subscriber, flush_topic,
}
use bpf_broker.ArrayProto.Handler.{ArrayAnswer, handle}
use bpf_broker.ArrayProto.View.{count_of, Lists, id_of, Represents}
use bpf_broker.ArrayProto.Change.{After}
use bpf_broker.ArrayProto.Subscribe.{Accepts, add_subscriber-appends}
use bpf_broker.ArrayProto.Flush.{flush_topic-empties}
use bpf_broker.ArrayProto.Reachable.{
  new_array_store, ArrayReachable, array_start, array_step, ArrayReachable-Represents,
}
use bpf_broker.ArrayProto.Delivery.{
  clone_tables_of, copies, IsDelivered, verdict_for, ArrayReachable-delivers,
}
use bpf_broker.Parse.Topic.{key_of}
use bpf_broker.ArrayProto.Fanout.{array_subscribe-delivers}
use bpf_broker.Tests.Samples.{publish_frame, publish_frame-IsBytes, key_t}
use bpf_broker.Tests.Xdp.{publish_frame-IsPublish}

abbrev pub array_sample : ArrayPlatform
array_sample = record {
  topics = assoc_map Key-discrete 10;
  counts = assoc_map Key-discrete 10;
  arrays = array_map 0;
}

abbrev pub creating_env : ArrayEnv
creating_env = record { fd_by_id = true; created = some 7 }

abbrev pub still_env : ArrayEnv
still_env = record { fd_by_id = true; created = none }

-- 10.0.0.2:5000
abbrev pub array_client : Client
array_client = record { s_addr = 0x0200000a; sin_port = 0x8813 }

pub array_client-FitsClient : FitsClient array_client
array_client-FitsClient = record { address = omega arith; port = omega arith }

abbrev pub array_buffer : List ℕ
array_buffer = replicate 1024 0

abbrev first_buffer : List ℕ
first_buffer = receive array_buffer (register_command ++ b't' ∷ [])

abbrev subscribe_buffer : List ℕ
subscribe_buffer = receive first_buffer (subscribe_command ++ b't' ∷ [])

abbrev stored_in : ArrayAnswer array_sample still_env → ArrayStore array_sample
stored_in (done (reply, s)) = s
stored_in overread = new_array_store array_sample
stored_in stuck = new_array_store array_sample

abbrev pub with_topic : ArrayStore array_sample
with_topic =
    stored_in
      (handle array_sample creating_env array_client first_buffer (new_array_store array_sample))

abbrev with_client : ArrayStore array_sample
with_client = stored_in (handle array_sample still_env array_client subscribe_buffer with_topic)

pub topic_run :
    handle array_sample creating_env array_client first_buffer (new_array_store array_sample)
    ≡ done (some (regack ++ b't' ∷ []), with_topic)
unfolding handle receive strncmp printed read_topic trim pack swap32 add_topic create_array
    add_subscriber append_entry strlen padded assoc_map update update_with array_map dec_lt
    Key-discrete ℕ_discrete
topic_run = refl

client_run :
    handle array_sample still_env array_client subscribe_buffer with_topic
    ≡ done (some (suback ++ b't' ∷ []), with_client)
unfolding handle receive strncmp printed read_topic trim pack swap32 add_topic create_array
    add_subscriber append_entry strlen padded assoc_map update update_with array_map dec_lt
    Key-discrete ℕ_discrete
client_run = refl

reached_topic : ArrayReachable array_sample first_buffer with_topic
reached_topic =
    array_step (array_start array_buffer refl) creating_env array_client
      (register_command ++ b't' ∷ []) (some (regack ++ b't' ∷ [])) array_client-FitsClient
      (λ id e t q. absurd (cc (array_sample.topics.lookup-empty t, q))) topic_run

reached_client : ArrayReachable array_sample subscribe_buffer with_client
reached_client =
    array_step reached_topic still_env array_client (subscribe_command ++ b't' ∷ [])
      (some (suback ++ b't' ∷ [])) array_client-FitsClient (λ id e t q. cc e) client_run

topic_at : id_of array_sample with_client key_t ≡ some 7
unfolding handle receive strncmp printed read_topic trim pack swap32 add_topic create_array
    add_subscriber append_entry strlen padded assoc_map update update_with array_map dec_lt
    Key-discrete ℕ_discrete
topic_at = refl

ArrayReachable-delivers_example :
    (v : View) × (l : List ℕ) × ViewReachable v
    × Represents array_sample with_client v
    × (v key_t ≡ some l)
    × (original (clone_tables_of array_sample with_client) (some 0) publish_frame
        ≡ (verdict_for l, some 1))
    × Pairwise
        (IsDelivered publish_frame)
        l
        (copies (clone_tables_of array_sample with_client) publish_frame 0 (length l))
ArrayReachable-delivers_example =
    ArrayReachable-delivers array_sample subscribe_buffer with_client (some 0) publish_frame key_t 7
      reached_client publish_frame-IsBytes publish_frame-IsPublish topic_at

abbrev view_of_client : View
view_of_client = (ArrayReachable-Represents array_sample reached_client).0

-- 10.0.0.3:5001 is the topic's second subscriber.
abbrev second_client : Client
second_client = record { s_addr = 0x0300000a; sin_port = 0x8913 }

counted_once : count_or_zero (count_of array_sample with_client (key_of (b't' ∷ []))) ≡ 1
unfolding handle receive strncmp printed read_topic trim pack swap32 add_topic create_array
    add_subscriber append_entry strlen padded assoc_map update update_with array_map dec_lt
    Key-discrete ℕ_discrete key_of
counted_once = refl

topic_found : id_of array_sample with_client (key_of (b't' ∷ [])) ≡ some 7
unfolding handle receive strncmp printed read_topic trim pack swap32 add_topic create_array
    add_subscriber append_entry strlen padded assoc_map update update_with array_map dec_lt
    Key-discrete ℕ_discrete key_of
topic_found = refl

count_room :
    array_sample.counts.update_elem with_client.topic_sub_cnt
      (key_of (b't' ∷ []))
      (suc (count_or_zero (count_of array_sample with_client (key_of (b't' ∷ [])))))
    ≢ none
unfolding handle receive strncmp printed read_topic trim pack swap32 add_topic create_array
    add_subscriber append_entry strlen padded assoc_map update update_with array_map dec_lt
    Key-discrete ℕ_discrete key_of
count_room e = cc e

array_subscribe-delivers_example :
    (s' : ArrayStore array_sample) × (l : List ℕ) × (handle array_sample still_env second_client
        (subscribe_command ++ (b't' ∷ 0 ∷ []))
        with_client
      ≡ done (some (suback ++ b't' ∷ []), s'))
    × (length l ≡ count_or_zero (count_of array_sample with_client (key_of (b't' ∷ []))))
    × Lists array_sample (with_client.inner 7) 0 l
    × (original (clone_tables_of array_sample s') (some 0) publish_frame
        ≡ (xdp_clone_tx (length (l ++ packed_client second_client ∷ [])), some 1))
    × Pairwise (IsDelivered publish_frame) (l ++ packed_client second_client ∷ []) (
        copies
          (clone_tables_of array_sample s')
          publish_frame
          0
          (length (l ++ packed_client second_client ∷ [])))
unfolding key_of
array_subscribe-delivers_example =
    array_subscribe-delivers array_sample still_env second_client with_client subscribe_buffer
      (b't' ∷ []) [] 0 7 reached_client (record { address = omega arith; port = omega arith })
      (refl, tt) (omega arith) refl topic_found refl (omega (arith, counted_once)) count_room
      (some 0) publish_frame publish_frame-IsBytes publish_frame-IsPublish

name_length : strlen (b't' ∷ 0 ∷ []) ≡ some 1
unfolding strlen
name_length = refl

add_subscriber-appends_example :
    (status : Status) × (s' : ArrayStore array_sample) × (add_subscriber array_sample still_env
        (b't' ∷ 0 ∷ [])
        0x0a000002
        5000
        with_client
      ≡ done (status, s'))
    × After array_sample still_env status s' view_of_client
        (view_subscribe (padded 1 (b't' ∷ 0 ∷ [])) (pack 0x0a000002 5000) view_of_client)
    × ((status ≡ ok)
        ↔ Accepts array_sample still_env with_client view_of_client (padded 1 (b't' ∷ 0 ∷ [])))
add_subscriber-appends_example =
    add_subscriber-appends array_sample still_env with_client view_of_client 1 0x0a000002 5000
      (b't' ∷ 0 ∷ []) (ArrayReachable-Represents array_sample reached_client).2 name_length
      (omega arith)

flush_topic-empties_example :
    (status : Status) × (s' : ArrayStore array_sample) × (flush_topic array_sample still_env
        (b't' ∷ 0 ∷ [])
        with_client
      ≡ done (status, s'))
    × After array_sample still_env status s' view_of_client
        (view_flush (padded 1 (b't' ∷ 0 ∷ [])) view_of_client)
    × ((status ≡ failed) ↔ (
        (true ≡ false)
        × ((x : ℕ) × (l : List ℕ) × (view_of_client (padded 1 (b't' ∷ 0 ∷ [])) ≡ some (x ∷ l)))))
flush_topic-empties_example =
    flush_topic-empties array_sample still_env with_client view_of_client 1 (b't' ∷ 0 ∷ [])
      (ArrayReachable-Represents array_sample reached_client).2 name_length (omega arith)
