-- ===== src/ArrayProto/Startup.antt =====
-- What main of bpf_broker_xdp/bpf_broker_proto.c does before its loop, and the loop as a whole.
use bpf_broker.Prelude.{ℕ, Bool, List, [], ◌∷◌, Option, some}
use bpf_broker.Frame.{swap16}
use bpf_broker.Proto.Service.{Outcome}
use bpf_broker.Proto.Handler.{Client, FitsClient, receive}
use bpf_broker.Proto.Handler.Ends.{Ends, Ends-of}
use bpf_broker.Proto.Startup.{
  inaddr_any, broker_port, ◌>>=◌, ◌>>◌, succeeds, topic_sub_cnt_path, serve_loop, RunsSafe,
  EndsReached, datagrams, serve_loop-EndsReached,
}
use bpf_broker.ArrayProto.{ArrayPlatform, ArrayStore, ArrayEnv}
use bpf_broker.ArrayProto.Handler.{handle}
use bpf_broker.ArrayProto.Register.{GivesFresh}
use bpf_broker.ArrayProto.Simulation.{Steps, handle-Steps}
use bpf_broker.ArrayProto.Reachable.{ArrayReachable, array_step, ArrayReachable-Represents}

-- "/sys/fs/bpf/topic_sub_array"
abbrev pub topic_sub_array_path : List ℕ
topic_sub_array_path =
    b'/' ∷ b's' ∷ b'y' ∷ b's' ∷ b'/' ∷ b'f' ∷ b's' ∷ b'/' ∷ b'b' ∷ b'p' ∷ b'f' ∷ b'/' ∷ b't' ∷ b'o'
    ∷ b'p' ∷ b'i' ∷ b'c' ∷ b'_' ∷ b's' ∷ b'u' ∷ b'b' ∷ b'_' ∷ b'a' ∷ b'r' ∷ b'r' ∷ b'a' ∷ b'y' ∷ []

pub record ArrayDescriptors : Type 0 where
  pub outer_fd : ℕ
  pub sub_count_fd : ℕ
  pub sock : ℕ

-- By what bpf_obj_get, socket and bind return, as for the other service; `none` is a negative number, and as the result the
-- return of 1.
unfoldable pub open_array_service :
    (List ℕ → Option ℕ) → Option ℕ → (ℕ → ℕ → ℕ → Bool) → Option ArrayDescriptors
open_array_service obj_get socket bind = do
  outer_fd ← obj_get topic_sub_array_path
  sub_count_fd ← obj_get topic_sub_cnt_path
  sock ← socket
  succeeds (bind sock inaddr_any (swap16 broker_port))
  some (record { outer_fd = outer_fd; sub_count_fd = sub_count_fd; sock = sock })

module _ (p : ArrayPlatform) where
  abbrev pub ArraySender : Type 0
  ArraySender = ArrayEnv × Client

  abbrev pub array_answer :
      ArraySender → List ℕ → ArrayStore p → Outcome (Option (List ℕ) × ArrayStore p)
  array_answer (env, client) buf s = handle p env client buf s

  -- The loop of main from some buffer and maps on.
  abbrev pub serve_array :
      List (Option (ArraySender × List ℕ))
      → List ℕ
      → ArrayStore p
      → Outcome (List (Option (List ℕ)) × List ℕ × ArrayStore p)
  serve_array = serve_loop array_answer

  -- A datagram comes from an address of 32 bits and a port of 16, and ids of new arrays are new.
  abbrev pub SafeArraySender : ArraySender → ArrayStore p → Type 0
  SafeArraySender (env, client) s = FitsClient client × GivesFresh p env s

  round_reached :
      (c : ArraySender) (datagram buf : List ℕ) (s : ArrayStore p)
      → ArrayReachable p buf s
      → SafeArraySender c s
      → Ends (ArrayReachable p (receive buf datagram)) (array_answer c (receive buf datagram) s)
  round_reached (env, client) datagram buf s r (fits, fresh) =
      let (v, reached, w) = ArrayReachable-Represents p r in
      Ends-of (ArrayReachable p (receive buf datagram)) (Steps p env client v)
        (handle p env client (receive buf datagram) s)
        (handle-Steps p env client v s (receive buf datagram) w fresh)
        λ reply s' e. array_step r env client datagram reply fits fresh e

  -- From a buffer and maps that are reached, for all that recvfrom gives, errors included, if each
  -- datagram comes from an address of 32 bits and a port of 16 and ids of new arrays are new: the
  -- loop of main over arrays is never stuck in a command, and unless a command reads past the end
  -- of an array, the buffer and the maps that it comes to are reached as well.
  pub serve_array-EndsReached :
      (received : List (Option (ArraySender × List ℕ))) (buf : List ℕ) (s : ArrayStore p)
      → ArrayReachable p buf s
      → RunsSafe array_answer SafeArraySender (ArrayReachable p) received buf s
      → EndsReached array_answer SafeArraySender
          (ArrayReachable p)
          (datagrams received)
          (serve_array received buf s)
  serve_array-EndsReached =
      serve_loop-EndsReached array_answer SafeArraySender (ArrayReachable p) round_reached
