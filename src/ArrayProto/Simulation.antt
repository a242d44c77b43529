-- ===== src/ArrayProto/Simulation.antt =====
-- The command loop over arrays, as steps of the view.
use bpf_broker.Proto.Handler.{
  packed_client, Client, register_command, subscribe_command, flush_command, regack, suback,
  flushed_reply,
}
use bpf_broker.Proto.View.{View, view_register, view_subscribe, view_flush}
use bpf_broker.Proto.View.Steps.{ViewStep, unchanged, registers, subscribes, flushes}
use bpf_broker.Prelude.{ℕ, sym, arith, drop, List, ◌++◌}
use mathlib.Core.Path.{subst}
use bpf_broker.Frame.{swap16}
use bpf_broker.Proto.Text.{strncmp, padded, printed, read_topic, swap32}
use bpf_broker.Proto.Service.{Status, ok, failed, done, overread, stuck}
use bpf_broker.ArrayProto.{
  ArrayPlatform, ArrayStore, ArrayEnv, ArrayRun, add_topic, add_subscriber, flush_topic,
}
use bpf_broker.Proto.Handler.Ends.{Ends, option-Ends, if-Ends, name-Ends}
use bpf_broker.ArrayProto.Handler.{answer_if_ok, answer_anyway, handle}
use bpf_broker.ArrayProto.View.{Represents}
use bpf_broker.ArrayProto.Change.{After}
use bpf_broker.ArrayProto.Register.{GivesFresh, add_topic-registers}
use bpf_broker.ArrayProto.Subscribe.{add_subscriber-appends}
use bpf_broker.ArrayProto.Flush.{flush_topic-empties}

module _ (p : ArrayPlatform) (env : ArrayEnv) (client : Client) (v : View) where
  -- The maps represent a view one step on.
  abbrev pub Steps : ArrayStore p → Type 0
  Steps s = (v' : View) × ViewStep client v v' × Represents p s v'

  After-Steps :
      (status : Status) (s : ArrayStore p) (v' : View)
      → ViewStep client v v'
      → After p env status s v v'
      → Steps s
  After-Steps ok s v' step a = (v', step, a)
  After-Steps failed s v' step a = (v, unchanged, a)

  answer_if_ok-Steps :
      (reply : List ℕ) (run : ArrayRun p env)
      → Ends Steps run
      → Ends Steps (answer_if_ok p env reply run)
  answer_if_ok-Steps reply (done (ok, s)) k = k
  answer_if_ok-Steps reply (done (failed, s)) k = k
  answer_if_ok-Steps reply overread k = tt
  answer_if_ok-Steps reply stuck k = k

  answer_anyway-Steps :
      (reply : List ℕ) (run : ArrayRun p env)
      → Ends Steps run
      → Ends Steps (answer_anyway p env reply run)
  answer_anyway-Steps reply (done (status, s)) k = k
  answer_anyway-Steps reply overread k = tt
  answer_anyway-Steps reply stuck k = k

  module _ (topic_name : List ℕ) (s : ArrayStore p) (w : Represents p s v) where
    add_topic-Steps : GivesFresh p env s → Ends Steps (add_topic p env topic_name s)
    unfolding add_topic
    add_topic-Steps fresh =
        name-Ends Steps topic_name s (add_topic p env topic_name s) (v, unchanged, w)
          (λ e. ground arith) (λ len e long. ground arith)
          λ len e below.
            let (status, s', run, after, made) =
              add_topic-registers p env s v len topic_name w fresh e below in
            subst (Ends Steps) (sym run) (
              After-Steps status s' (view_register (padded len topic_name) v)
                (registers (padded len topic_name)) after)

    add_subscriber-Steps :
        Ends Steps
          (add_subscriber p env topic_name (swap32 client.s_addr) (swap16 client.sin_port) s)
    unfolding add_subscriber
    add_subscriber-Steps =
        name-Ends Steps topic_name s
          (add_subscriber p env topic_name (swap32 client.s_addr) (swap16 client.sin_port) s)
          (v, unchanged, w) (λ e. ground arith) (λ len e long. ground arith)
          λ len e below.
            let (status, s', run, after, made) =
              add_subscriber-appends p env s v len (swap32 client.s_addr) (swap16 client.sin_port)
                topic_name w e below in
            subst (Ends Steps) (sym run) (
              After-Steps status s'
                (view_subscribe (padded len topic_name) (packed_client client) v)
                (subscribes (padded len topic_name)) after)

    flush_topic-Steps : Ends Steps (flush_topic p env topic_name s)
    unfolding flush_topic
    flush_topic-Steps =
        name-Ends Steps topic_name s (flush_topic p env topic_name s) (v, unchanged, w)
          (λ e. ground arith) (λ len e long. ground arith)
          λ len e below.
            let (status, s', run, after, made) =
              flush_topic-empties p env s v len topic_name w e below in
            subst (Ends Steps) (sym run) (
              After-Steps status s' (view_flush (padded len topic_name) v)
                (flushes (padded len topic_name)) after)

  -- For every client and buffer, on maps that represent a view, where ids of new arrays are new: a
  -- command of the service over arrays reads past the end of an array, or ends with maps that
  -- represent the view one step on, the steps being to register a topic, to append the client to a
  -- topic's list, to empty a list, and to change nothing.
  pub handle-Steps :
      (s : ArrayStore p) (buf : List ℕ)
      → Represents p s v
      → GivesFresh p env s
      → Ends Steps (handle p env client buf s)
  unfolding handle
  handle-Steps s buf w fresh =
      let register = read_topic (drop 9 buf) in
      let subscribe = read_topic (drop 10 buf) in
      if-Ends Steps (strncmp buf register_command) _ _
        (option-Ends Steps (printed register) _
          (λ text. answer_if_ok-Steps (regack ++ text) _ (add_topic-Steps register s w fresh)))
        (if-Ends Steps (strncmp buf subscribe_command) _ _
          (option-Ends Steps (printed subscribe) _
            (λ text. answer_anyway-Steps (suback ++ text) _ (add_subscriber-Steps subscribe s w)))
          (if-Ends Steps (strncmp buf flush_command) _ _
            (answer_anyway-Steps flushed_reply _ (flush_topic-Steps (read_topic (drop 6 buf)) s w))
            (v, unchanged, w)))
