-- ===== src/ArrayProto/Handler.antt =====
-- The loop of main in bpf_broker_xdp/bpf_broker_proto.c. Its buffer and its texts are those of the
-- other service.
use bpf_broker.Prelude.{ℕ, if◌then◌else◌, drop, List, ◌++◌, Option, none, some}
use bpf_broker.Frame.{swap16}
use bpf_broker.Proto.Text.{strncmp, read_topic, printed, swap32}
use bpf_broker.Proto.Service.{ok, failed, Outcome, done, overread, stuck}
use bpf_broker.Proto.Handler.{
  Client, register_command, subscribe_command, flush_command, regack, suback, flushed_reply,
}
use bpf_broker.ArrayProto.{
  ArrayPlatform, ArrayStore, ArrayEnv, ArrayRun, add_topic, add_subscriber, flush_topic,
}

module _ (p : ArrayPlatform) (env : ArrayEnv) where
  -- The datagram that is sent back, if there is one, and the maps.
  abbrev pub ArrayAnswer : Type 0
  ArrayAnswer = Outcome (Option (List ℕ) × ArrayStore p)

  -- `if (add_topic(outer_fd, topic_key) == 0)`
  abbrev pub answer_if_ok : List ℕ → ArrayRun p env → ArrayAnswer
  answer_if_ok reply (done (ok, s)) = done (some reply, s)
  answer_if_ok reply (done (failed, s)) = done (none, s)
  answer_if_ok reply overread = overread
  answer_if_ok reply stuck = stuck

  -- A reply that does not look at what the call returned.
  abbrev pub answer_anyway : List ℕ → ArrayRun p env → ArrayAnswer
  answer_anyway reply (done (status, s)) = done (some reply, s)
  answer_anyway reply overread = overread
  answer_anyway reply stuck = stuck

  unfoldable pub handle_register : List ℕ → ArrayStore p → ArrayAnswer
  handle_register buf s =
      let topic_key = read_topic (drop 9 buf) in
      elim (printed topic_key) [
        | none ↦ overread
        | some text ↦ answer_if_ok (regack ++ text) (add_topic p env topic_key s)
      ]

  unfoldable pub handle_subscribe : Client → List ℕ → ArrayStore p → ArrayAnswer
  handle_subscribe client buf s =
      let topic_key = read_topic (drop 10 buf) in
      let ip = swap32 client.s_addr in
      let port = swap16 client.sin_port in
      elim (printed topic_key) [
        | none ↦ overread
        | some text ↦ answer_anyway (suback ++ text) (add_subscriber p env topic_key ip port s)
      ]

  unfoldable pub handle_flush : List ℕ → ArrayStore p → ArrayAnswer
  handle_flush buf s = answer_anyway flushed_reply (flush_topic p env (read_topic (drop 6 buf)) s)

  unfoldable pub handle : Client → List ℕ → ArrayStore p → ArrayAnswer
  unfolding handle_register handle_subscribe handle_flush
  handle client buf s =
      if strncmp buf register_command
      then handle_register buf s
      else if strncmp buf subscribe_command
      then handle_subscribe client buf s
      else if strncmp buf flush_command
      then handle_flush buf s
      else done (none, s)
