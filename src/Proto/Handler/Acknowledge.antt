-- ===== src/Proto/Handler/Acknowledge.antt =====
-- REGISTER: when REGACK is sent.
use bpf_broker.Prelude.{
  ℕ, ◌<◌, ◌≡◌, ◌≢◌, ◌↔◌, ap, ◌∙◌, refl, true, length, List, ◌∷◌, ◌++◌, Option, none, some,
}
use mathlib.Core.Path.{subst}
use bpf_broker.Parse.{Key}
use bpf_broker.Parse.Topic.{key_of}
use bpf_broker.Proto.Text.{read_topic}
use bpf_broker.Proto.Store.{Platform, Store, Env}
use bpf_broker.Proto.Service.{Status, ok, failed, done}
use bpf_broker.Proto.Service.Invariant.{id_of, WellFormed}
use bpf_broker.Proto.Service.Register.{FreshId, IsRegistration, add_topic-IsRegistration}
use bpf_broker.Proto.Handler.{Client, register_command, regack, regack_if_ok, handle}
use bpf_broker.Proto.Handler.Topic.{IsLine, ends_line, read_topic-line}
use bpf_broker.Proto.Handler.Commands.{handle-register}

module _ (p : Platform) (env : Env) where
  -- What REGISTER leaves and answers: REGACK exactly if the topic is registered then, and no answer
  -- otherwise.
  pub record IsAcknowledged (key : Key) (t : List ℕ) (reply : Option (List ℕ)) (s s' : Store p)
      : Type 0 where
    pub acks : (reply ≡ some (regack ++ t)) ↔ (id_of p s' key ≢ none)
    pub silent : reply ≢ some (regack ++ t) → (reply ≡ none) × (s' ≡ s)
    pub valid : WellFormed p s'

  acknowledged :
      (key : Key) (t : List ℕ) (s s' : Store p) (status : Status)
      → IsRegistration p env key s status s'
      → (reply : Option (List ℕ)) × (regack_if_ok p env t (done (status, s')) ≡ done (reply, s'))
        × IsAcknowledged key t reply s s'
  acknowledged key t s s' ok r = (
    some (regack ++ t),
    refl,
    record {
      acks = (λ e n. let (i, at) = r.success refl in cc (at, n), λ n. refl);
      silent = λ n. absurd (n refl);
      valid = r.valid;
    },
  )
  acknowledged key t s s' failed r = (
    none,
    refl,
    record {
      acks = (
        λ e. absurd (cc e),
        λ n. absurd (n (ap (λ u. id_of p u key) (r.failure refl) ∙ r.refused refl)),
      );
      silent = λ n. (refl, r.failure refl);
      valid = r.valid;
    },
  )

  -- For well-formed maps and a kernel that gives new maps new ids, REGISTER with a topic of fewer
  -- than 20 characters before the end of its line is handled, REGACK with the topic is sent exactly
  -- if the topic is registered afterwards, and where it is not sent there is no answer and the maps
  -- are as before. The invariant is kept.
  pub handle-register-IsAcknowledged :
      (fuel : ℕ) (client : Client) (s : Store p) (t raw : List ℕ) (d : ℕ)
      → IsLine t
      → length t < 20
      → ends_line d ≡ true
      → FreshId p env s
      → WellFormed p s
      → (reply : Option (List ℕ)) × (s' : Store p) × (handle p env fuel client
            (register_command ++ (t ++ d ∷ raw))
            s
          ≡ done (reply, s'))
        × IsAcknowledged (key_of t) t reply s s'
  handle-register-IsAcknowledged fuel client s t raw d line short end fresh w =
      let (len, text, key) = read_topic-line t raw d line short end in
      let (status, s', run, reg) =
        add_topic-IsRegistration p env (length t) (read_topic (t ++ d ∷ raw)) s len short fresh w in
      let (reply, answered, ack) =
        acknowledged (key_of t) t s s' status
          (subst (λ k. IsRegistration p env k s status s') key reg) in
      (
        reply,
        s',
        handle-register p env fuel client s t raw line d short end
            ∙ ap (regack_if_ok p env t) run
            ∙ answered,
        ack,
      )
