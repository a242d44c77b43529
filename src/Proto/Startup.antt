-- ===== src/Proto/Startup.antt =====
-- What main of bpf_broker/bpf_broker_proto.c does before its loop, and the loop as a whole.
use bpf_broker.Prelude.{
  ℕ, suc, ap, length, ◌≡◌, refl, Bool, true, false, List, [], ◌∷◌, Option, none, some,
}
use bpf_broker.Frame.{swap16}
use bpf_broker.Proto.Store.{Platform, Store, Env}
use bpf_broker.Proto.Service.{Outcome, done, overread, stuck}
use bpf_broker.Proto.Handler.{Client, FitsClient, receive, handle}
use bpf_broker.Proto.Handler.Invariant.{handle-Keeps}
use bpf_broker.Proto.Handler.Ends.{Ends, Ends-of}
use bpf_broker.Proto.Service.Invariant.{WellFormed}
use bpf_broker.Proto.Handler.Steps.{Ready}
use bpf_broker.Proto.Handler.Reachable.{Reachable, step, Reachable-WellFormed}

-- A return of 1 is `none`.
infixl 5 ◌>>=◌ ◌>>◌
abbrev pub ◌>>=◌ : {A B : Type 0} → Option A → (A → Option B) → Option B
none >>= next = none
some a >>= next = next a

abbrev pub ◌>>◌ : {B : Type 0} → Option (Unit {0}) → Option B → Option B
m >> next = m >>= λ u. next

abbrev pub succeeds : Bool → Option (Unit {0})
succeeds true = some tt
succeeds false = none

-- "/sys/fs/bpf/topic_subscribe", "/sys/fs/bpf/topic_sub_cnt" and "/sys/fs/bpf/topic_first_sub"
abbrev pub topic_subscribe_path : List ℕ
topic_subscribe_path =
    b'/' ∷ b's' ∷ b'y' ∷ b's' ∷ b'/' ∷ b'f' ∷ b's' ∷ b'/' ∷ b'b' ∷ b'p' ∷ b'f' ∷ b'/' ∷ b't' ∷ b'o'
    ∷ b'p' ∷ b'i' ∷ b'c' ∷ b'_' ∷ b's' ∷ b'u' ∷ b'b' ∷ b's' ∷ b'c' ∷ b'r' ∷ b'i' ∷ b'b' ∷ b'e' ∷ []

abbrev pub topic_sub_cnt_path : List ℕ
topic_sub_cnt_path =
    b'/' ∷ b's' ∷ b'y' ∷ b's' ∷ b'/' ∷ b'f' ∷ b's' ∷ b'/' ∷ b'b' ∷ b'p' ∷ b'f' ∷ b'/' ∷ b't' ∷ b'o'
    ∷ b'p' ∷ b'i' ∷ b'c' ∷ b'_' ∷ b's' ∷ b'u' ∷ b'b' ∷ b'_' ∷ b'c' ∷ b'n' ∷ b't' ∷ []

abbrev pub topic_first_sub_path : List ℕ
topic_first_sub_path =
    b'/' ∷ b's' ∷ b'y' ∷ b's' ∷ b'/' ∷ b'f' ∷ b's' ∷ b'/' ∷ b'b' ∷ b'p' ∷ b'f' ∷ b'/' ∷ b't' ∷ b'o'
    ∷ b'p' ∷ b'i' ∷ b'c' ∷ b'_' ∷ b'f' ∷ b'i' ∷ b'r' ∷ b's' ∷ b't' ∷ b'_' ∷ b's' ∷ b'u' ∷ b'b' ∷ []

pub record Descriptors : Type 0 where
  pub outer_fd : ℕ
  pub sub_count_fd : ℕ
  pub first_sub_fd : ℕ
  pub sock : ℕ

abbrev pub inaddr_any : ℕ
inaddr_any = 0

abbrev pub broker_port : ℕ
broker_port = 49152

-- By what bpf_obj_get, socket and bind, for a socket, an address and a port in network order, return; `none` is a negative number.
unfoldable pub open_service :
    (List ℕ → Option ℕ) → Option ℕ → (ℕ → ℕ → ℕ → Bool) → Option Descriptors
open_service obj_get socket bind = do
  outer_fd ← obj_get topic_subscribe_path
  sub_count_fd ← obj_get topic_sub_cnt_path
  first_sub_fd ← obj_get topic_first_sub_path
  sock ← socket
  succeeds (bind sock inaddr_any (swap16 broker_port))
  some (record {
    outer_fd = outer_fd;
    sub_count_fd = sub_count_fd;
    first_sub_fd = first_sub_fd;
    sock = sock;
  })

-- The rest of a run after an answer.
abbrev pub and_replies :
    {R S : Type 0} → R → Outcome (List R × List ℕ × S) → Outcome (List R × List ℕ × S)
and_replies reply (done (replies, buf, s)) = done (reply ∷ replies, buf, s)
and_replies reply overread = overread
and_replies reply stuck = stuck

-- `while (1)`, on what recvfrom gives: `none` is an error, after which the round is over. `answer`
-- is the rest of a round, from the first strncmp on.
unfoldable pub serve_loop :
    {C R S : Type 0}
    → (C → List ℕ → S → Outcome (R × S))
    → List (Option (C × List ℕ))
    → List ℕ
    → S
    → Outcome (List R × List ℕ × S)
serve_loop answer [] buf s = done ([], buf, s)
serve_loop answer (none ∷ received) buf s = serve_loop answer received buf s
serve_loop answer (some (c, datagram) ∷ received) buf s = elim (answer c (receive buf datagram) s) [
  | done (reply, s') ↦ and_replies reply (serve_loop answer received (receive buf datagram) s')
  | overread ↦ overread
  | stuck ↦ stuck
]

-- How many datagrams are received.
abbrev pub datagrams : {C : Type 0} → List (Option (C × List ℕ)) → ℕ
datagrams [] = 0
datagrams (none ∷ received) = datagrams received
datagrams (some d ∷ received) = suc (datagrams received)

module _ {C R S : Type 0} (answer : C → List ℕ → S → Outcome (R × S)) (Safe : C → S → Type 0)
    (Reached : List ℕ → S → Type 0) where
  -- Every datagram of a run is handled under its condition.
  abbrev pub RunsSafe : List (Option (C × List ℕ)) → List ℕ → S → Type 0
  RunsSafe [] buf s = Unit
  RunsSafe (none ∷ received) buf s = RunsSafe received buf s
  RunsSafe (some (c, datagram) ∷ received) buf s =
      Safe c s
      × ((reply : R) (s' : S)
          → answer c (receive buf datagram) s ≡ done (reply, s')
          → RunsSafe received (receive buf datagram) s')

  -- The run is not stuck, has handled `n` datagrams, and its buffer and its maps are reached.
  abbrev pub EndsReached : ℕ → Outcome (List R × List ℕ × S) → Type 0
  EndsReached n (done (replies, buf, s)) = (length replies ≡ n) × Reached buf s
  EndsReached n overread = Unit
  EndsReached n stuck = ⊥

  and_replies-EndsReached :
      (reply : R) (n : ℕ) (run : Outcome (List R × List ℕ × S))
      → EndsReached n run
      → EndsReached (suc n) (and_replies reply run)
  and_replies-EndsReached reply n (done (replies, buf, s)) (count, h) = (ap suc count, h)
  and_replies-EndsReached reply n overread h = h
  and_replies-EndsReached reply n stuck h = h

  round-Ends :
      (received : List (Option (C × List ℕ))) (run : Outcome (R × S)) (buf : List ℕ)
      → Ends (Reached buf) run
      → ((reply : R) (s' : S)
          → run ≡ done (reply, s')
          → Reached buf s'
          → EndsReached (datagrams received) (serve_loop answer received buf s'))
      → EndsReached (suc (datagrams received)) (elim run [
        | done (reply, s') ↦ and_replies reply (serve_loop answer received buf s')
        | overread ↦ overread
        | stuck ↦ stuck
      ])
  round-Ends received (done (reply, s')) buf k rest =
      and_replies-EndsReached reply (datagrams received) (serve_loop answer received buf s')
        (rest reply s' refl k)
  round-Ends received overread buf k rest = tt
  round-Ends received stuck buf k rest = k

  -- The loop, from what one round does.
  pub serve_loop-EndsReached :
      ((c : C) (datagram buf : List ℕ) (s : S)
        → Reached buf s
        → Safe c s
        → Ends (Reached (receive buf datagram)) (answer c (receive buf datagram) s))
      → (received : List (Option (C × List ℕ))) (buf : List ℕ) (s : S) → Reached buf s
      → RunsSafe received buf s
      → EndsReached (datagrams received) (serve_loop answer received buf s)
  unfolding serve_loop
  serve_loop-EndsReached round [] buf s r h = (refl, r)
  serve_loop-EndsReached round (none ∷ received) buf s r h =
      serve_loop-EndsReached round received buf s r h
  serve_loop-EndsReached round (some (c, datagram) ∷ received) buf s r (safe, next) =
      round-Ends received (answer c (receive buf datagram) s) (receive buf datagram)
        (round c datagram buf s r safe)
        λ reply s' e r'.
          serve_loop-EndsReached round received (receive buf datagram) s' r' (next reply s' e)

module _ (p : Platform) (fuel : ℕ) where
  -- The sender of a datagram, and what the kernel answers to its command.
  abbrev pub Sender : Type 0
  Sender = Env × Client

  abbrev pub answer : Sender → List ℕ → Store p → Outcome (Option (List ℕ) × Store p)
  answer (env, client) buf s = handle p env fuel client buf s

  -- The loop of main from some buffer and maps on.
  abbrev pub serve :
      List (Option (Sender × List ℕ))
      → List ℕ
      → Store p
      → Outcome (List (Option (List ℕ)) × List ℕ × Store p)
  serve = serve_loop answer

  -- A datagram comes from an address of 32 bits and a port of 16, and is handled under Ready.
  abbrev pub SafeSender : Sender → Store p → Type 0
  SafeSender (env, client) s = FitsClient client × Ready p env fuel s

  round_reached :
      (c : Sender) (datagram buf : List ℕ) (s : Store p)
      → Reachable p buf s
      → SafeSender c s
      → Ends (Reachable p (receive buf datagram)) (answer c (receive buf datagram) s)
  round_reached (env, client) datagram buf s r (fits, ready) =
      Ends-of (Reachable p (receive buf datagram)) (WellFormed p)
        (handle p env fuel client (receive buf datagram) s)
        (handle-Keeps p env fuel s (Reachable-WellFormed p r) ready client (receive buf datagram))
        λ reply s' e. step r env fuel client datagram reply fits ready e

  -- From a buffer and maps that are reached, for all that recvfrom gives, errors included, if each
  -- datagram comes from an address of 32 bits and a port of 16 and is handled under Ready: the loop
  -- of main is never stuck in a command, and unless a command reads past the end of an array, it
  -- has handled every datagram that was received, and the buffer and the maps that it comes to are
  -- reached as well.
  pub serve-EndsReached :
      (received : List (Option (Sender × List ℕ))) (buf : List ℕ) (s : Store p)
      → Reachable p buf s
      → RunsSafe answer SafeSender (Reachable p) received buf s
      → EndsReached answer SafeSender (Reachable p) (datagrams received) (serve received buf s)
  serve-EndsReached = serve_loop-EndsReached answer SafeSender (Reachable p) round_reached
