-- ===== src/Broker/Keys.antt =====
-- The topic key of a name: extract_topic_id in the kernel and the command handlers agree.
use bpf_broker.Prelude.{
  ℕ, ◌<◌, ◌≡◌, sym, ap, ◌∙◌, true, arith, length, drop, List, [], ◌∷◌, ◌++◌, some,
}
use bpf_broker.Frame.{Frame}
use bpf_broker.Parse.{is_delimiter, extract_topic_id}
use bpf_broker.Parse.Topic.{
  IsName, name_of, key_of, topic_spec, topic_spec-delimiter, extract_topic_id-eq-topic_spec,
}
use bpf_broker.Proto.Text.{padded, read_topic}
use bpf_broker.Proto.Handler.Topic.{IsLine, ends_line, read_topic-line}

name_of-append :
    (t r : List ℕ) (d : ℕ) → IsName t → is_delimiter d ≡ true → name_of (t ++ d ∷ r) ≡ t
unfolding name_of
name_of-append [] r d name delim = ground arith
name_of-append (c ∷ t) r d name delim = ground (arith, name_of-append t r d name.1 delim)

-- A name of fewer than 20 characters with a delimiter behind it.
pub topic_spec-name :
    (t r : List ℕ) (d : ℕ)
    → IsName t
    → length t < 20
    → is_delimiter d ≡ true
    → topic_spec (t ++ d ∷ r) ≡ some (key_of t)
topic_spec-name t r d name short delim =
    let e : name_of (t ++ d ∷ r) ≡ t = name_of-append t r d name delim in
    topic_spec-delimiter (t ++ d ∷ r) d r (rw e short) (rw e) ∙ ap (λ k. some (key_of k)) e

-- For a name of fewer than 20 characters without space, NUL, newline and carriage return: the key
-- that extract_topic_id finds in a frame that has the name and then a delimiter is the key that the
-- service makes of a command that has the name and then the end of a line.
pub extract_topic_id-eq-padded :
    (f : Frame) (o : ℕ) (t r raw : List ℕ) (d e : ℕ)
    → IsName t
    → IsLine t
    → length t < 20
    → is_delimiter d ≡ true
    → ends_line e ≡ true
    → drop o f ≡ t ++ d ∷ r
    → extract_topic_id f o ≡ some (padded (length t) (read_topic (t ++ e ∷ raw)))
extract_topic_id-eq-padded f o t r raw d e name line short delim end at =
    extract_topic_id-eq-topic_spec f o
    ∙ ap topic_spec at
    ∙ topic_spec-name t r d name short delim
    ∙ ap some (sym (read_topic-line t raw e line short end).2)
