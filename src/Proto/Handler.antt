-- ===== src/Proto/Handler.antt =====
-- The loop of main in bpf_broker/bpf_broker_proto.c: one datagram is received, handled by its
-- command, and perhaps answered.
pub mod Topic
pub mod Commands
pub mod Acknowledge
pub mod Answered
pub mod Ends
pub mod Steps
pub mod Invariant
pub mod Reachable
use bpf_broker.Proto.Text.{pack, strncmp, read_topic, printed, swap32}
use bpf_broker.Prelude.{
  ◌^◌, ◌<◌, ℕ, zero, suc, ◌+◌, Bool, true, false, if◌then◌else◌, length, take, drop, set, List, [],
  ◌∷◌, ◌++◌, Option, none, some,
}
use bpf_broker.Frame.{swap16}
use bpf_broker.Proto.Store.{Platform, Store, Env}
use bpf_broker.Proto.Service.{
  Status, ok, failed, Outcome, done, overread, stuck, Run, add_topic, add_subscriber, flush_topic,
}

-- "REGISTER ", "SUBSCRIBE " and "FLUSH "
abbrev pub register_command : List ℕ
register_command = b'R' ∷ b'E' ∷ b'G' ∷ b'I' ∷ b'S' ∷ b'T' ∷ b'E' ∷ b'R' ∷ b' ' ∷ []

abbrev pub subscribe_command : List ℕ
subscribe_command = b'S' ∷ b'U' ∷ b'B' ∷ b'S' ∷ b'C' ∷ b'R' ∷ b'I' ∷ b'B' ∷ b'E' ∷ b' ' ∷ []

abbrev pub flush_command : List ℕ
flush_command = b'F' ∷ b'L' ∷ b'U' ∷ b'S' ∷ b'H' ∷ b' ' ∷ []

-- "REGACK ", "SUBACK " and "FLUSHED"
abbrev pub regack : List ℕ
regack = b'R' ∷ b'E' ∷ b'G' ∷ b'A' ∷ b'C' ∷ b'K' ∷ b' ' ∷ []

abbrev pub suback : List ℕ
suback = b'S' ∷ b'U' ∷ b'B' ∷ b'A' ∷ b'C' ∷ b'K' ∷ b' ' ∷ []

abbrev pub flushed_reply : List ℕ
flushed_reply = b'F' ∷ b'L' ∷ b'U' ∷ b'S' ∷ b'H' ∷ b'E' ∷ b'D' ∷ []

-- The sender as recvfrom stores it, both fields in network order.
pub record Client : Type 0 where
  pub s_addr : ℕ
  pub sin_port : ℕ

-- The client as add_subscriber packs it.
abbrev pub packed_client : Client → ℕ
packed_client client = pack (swap32 client.s_addr) (swap16 client.sin_port)

-- An address of 32 bits and a port of 16.
pub record FitsClient (client : Client) : Type 0 where
  pub address : client.s_addr < 2 ^ 32
  pub port : client.sin_port < 2 ^ 16

-- `recvfrom(sock, buf, sizeof(buf) - 1, ...)` and `buf[len] = '\0'`: what the buffer held stays
-- behind the datagram, and a longer datagram is cut.
unfoldable pub receive : List ℕ → List ℕ → List ℕ
receive buf datagram =
    let text = take 1023 datagram in set (text ++ drop (length text) buf) (length text) 0

module _ (p : Platform) (env : Env) where
  -- The datagram that is sent back, if there is one, and the maps.
  abbrev pub Answer : Type 0
  Answer = Outcome (Option (List ℕ) × Store p)

  -- `if (add_topic(outer_fd, topic_key) == 0)`
  abbrev pub regack_if_ok : List ℕ → Run p env → Answer
  regack_if_ok text (done (ok, s)) = done (some (regack ++ text), s)
  regack_if_ok text (done (failed, s)) = done (none, s)
  regack_if_ok text overread = overread
  regack_if_ok text stuck = stuck

  -- A reply that does not look at what the call returned.
  abbrev pub answer_always : List ℕ → Run p env → Answer
  answer_always reply (done (status, s)) = done (some reply, s)
  answer_always reply overread = overread
  answer_always reply stuck = stuck

  unfoldable pub handle_register : List ℕ → Store p → Answer
  handle_register buf s =
      let topic_key = read_topic (drop 9 buf) in
      elim (printed topic_key) [
        | none ↦ overread
        | some text ↦ regack_if_ok text (add_topic p env topic_key s)
      ]

  unfoldable pub handle_subscribe : Client → List ℕ → Store p → Answer
  handle_subscribe client buf s =
      let topic_key = read_topic (drop 10 buf) in
      let ip = swap32 client.s_addr in
      let port = swap16 client.sin_port in
      elim (printed topic_key) [
        | none ↦ overread
        | some text ↦ answer_always (suback ++ text) (add_subscriber p env topic_key ip port s)
      ]

  unfoldable pub handle_flush : ℕ → List ℕ → Store p → Answer
  handle_flush fuel buf s =
      answer_always flushed_reply (flush_topic p env fuel (read_topic (drop 6 buf)) s)

  unfoldable pub handle : ℕ → Client → List ℕ → Store p → Answer
  unfolding handle_register handle_subscribe handle_flush
  handle fuel client buf s =
      if strncmp buf register_command
      then handle_register buf s
      else if strncmp buf subscribe_command
      then handle_subscribe client buf s
      else if strncmp buf flush_command
      then handle_flush fuel buf s
      else done (none, s)
