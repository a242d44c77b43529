-- ===== src/Proto/Handler/Commands.antt =====
-- Which handler a datagram reaches, with which topic, and where it reads too far.
use bpf_broker.Prelude.{
  ℕ, zero, suc, ◌≤◌, ◌<◌, ◌≡◌, refl, ap, true, arith, length, take, drop, set, List, [], ◌∷◌, ◌++◌,
  some,
}
use bpf_broker.Frame.{swap16}
use bpf_broker.Proto.Text.{strncmp, printed, read_topic, swap32}
use bpf_broker.Proto.Store.{Platform, Store, Env}
use bpf_broker.Proto.Service.{overread, add_topic, add_subscriber, flush_topic}
use bpf_broker.Proto.Handler.{
  Client, register_command, subscribe_command, flush_command, suback, flushed_reply, regack_if_ok,
  answer_always, receive, handle,
}
use bpf_broker.Proto.Handler.Topic.{IsLine, ends_line, read_topic-line, read_topic-long}

-- The datagram stands in the buffer with a NUL behind it.
receive_at :
    (d buf : List ℕ)
    → length d < length buf
    → set (d ++ drop (length d) buf) (length d) 0 ≡ d ++ 0 ∷ drop (suc (length d)) buf
receive_at [] [] h = absurd (omega arith)
receive_at [] (b ∷ buf) h = refl
receive_at (c ∷ d) [] h = absurd (omega arith)
receive_at (c ∷ d) (b ∷ buf) h = ap (λ l. c ∷ l) (receive_at d buf (omega arith))

take_all : (n : ℕ) (d : List ℕ) → length d ≤ n → take n d ≡ d
take_all zero [] h = refl
take_all zero (c ∷ d) h = absurd (omega arith)
take_all (suc n) [] h = refl
take_all (suc n) (c ∷ d) h = ap (λ l. c ∷ l) (take_all n d (omega arith))

-- After a datagram of at most 1023 characters the buffer of 1024 holds the datagram, a NUL, and
-- then what stood there before.
pub receive-terminated :
    (buf datagram : List ℕ)
    → length buf ≡ 1024
    → length datagram ≤ 1023
    → receive buf datagram ≡ datagram ++ 0 ∷ drop (suc (length datagram)) buf
unfolding receive
receive-terminated buf datagram size short =
    let whole = take_all 1023 datagram short in rw whole (receive_at datagram buf (omega arith))

pub printed-line :
    (t raw : List ℕ) (d : ℕ)
    → IsLine t
    → length t < 20
    → ends_line d ≡ true
    → printed (read_topic (t ++ d ∷ raw)) ≡ some t
unfolding printed
printed-line t raw d line short end =
    let (len, text, key) = read_topic-line t raw d line short end in ground arith

module _ (p : Platform) (env : Env) (fuel : ℕ) (client : Client) (s : Store p) (t raw : List ℕ)
    (line : IsLine t) where
  module _ (d : ℕ) (short : length t < 20) (end : ends_line d ≡ true) where
    -- REGISTER with a topic of fewer than 20 characters before the end of its line runs add_topic
    -- with that text, and REGACK with the topic is sent exactly if that returns 0.
    pub handle-register :
        handle p env fuel client (register_command ++ (t ++ d ∷ raw)) s
        ≡ regack_if_ok p env t (add_topic p env (read_topic (t ++ d ∷ raw)) s)
    unfolding handle strncmp
    handle-register = let text = printed-line t raw d line short end in ground arith

    -- SUBSCRIBE with a topic of fewer than 20 characters before the end of its line runs
    -- add_subscriber with that text and the sender's address and port in host order, and SUBACK
    -- with the topic is sent whatever that returns.
    pub handle-subscribe :
        handle p env fuel client (subscribe_command ++ (t ++ d ∷ raw)) s
        ≡ answer_always p env (suback ++ t) (
            add_subscriber p env
              (read_topic (t ++ d ∷ raw))
              (swap32 client.s_addr)
              (swap16 client.sin_port)
              s)
    unfolding handle strncmp
    handle-subscribe = let text = printed-line t raw d line short end in ground arith

    -- FLUSH with such a topic runs flush_topic with that text, and FLUSHED is sent whatever that
    -- returns.
    pub handle-flush :
        handle p env fuel client (flush_command ++ (t ++ d ∷ raw)) s
        ≡ answer_always p env flushed_reply (flush_topic p env fuel (read_topic (t ++ d ∷ raw)) s)
    unfolding handle strncmp
    handle-flush = refl

  -- A command whose topic has 20 characters and none that ends a line among them reads past the end
  -- of the array that holds the topic, for each of REGISTER, SUBSCRIBE and FLUSH.
  pub handle-overread :
      length t ≡ 20
      → (handle p env fuel client (register_command ++ (t ++ raw)) s ≡ overread)
        × (handle p env fuel client (subscribe_command ++ (t ++ raw)) s ≡ overread)
        × (handle p env fuel client (flush_command ++ (t ++ raw)) s ≡ overread)
  unfolding handle strncmp printed flush_topic
  handle-overread full =
      let unterminated = read_topic-long t raw line full in
      (ground arith, ground arith, ground arith)
