-- ===== src/Proto/Handler/Invariant.antt =====
-- The invariant of the maps over one command.
use bpf_broker.Prelude.{ℕ, List}
use bpf_broker.Proto.Store.{Platform, Store, Env}
use bpf_broker.Proto.Service.{Outcome, done, overread, stuck}
use bpf_broker.Proto.Service.Invariant.{WellFormed}
use bpf_broker.Proto.Service.Viewed.{topics_of-IsViewOf}
use bpf_broker.Broker.{topics_of}
use bpf_broker.Proto.Handler.{Client, Answer, handle}
use bpf_broker.Proto.Handler.Ends.{Ends}
use bpf_broker.Proto.Handler.Steps.{Ready, StepsTo, handle-StepsTo}

abbrev pub KeepsAnswer : (p : Platform) (env : Env) → Answer p env → Type 0
KeepsAnswer p env = Ends (WellFormed p)

Ends-map :
    {S A : Type 0} (P Q : S → Type 0) (o : Outcome (A × S))
    → ((s : S) → P s → Q s)
    → Ends P o
    → Ends Q o
Ends-map P Q (done (a, s)) h k = h s k
Ends-map P Q overread h k = tt
Ends-map P Q stuck h k = k

-- From well-formed maps and under Ready, which asks for more fuel than any topic has subscribers,
-- a command ends for every client and buffer: its loop is not stuck, and the maps are well formed
-- after it unless it reads past the end of an array.
pub handle-Keeps :
    (p : Platform) (env : Env) (fuel : ℕ) (s : Store p)
    → WellFormed p s
    → Ready p env fuel s
    → (client : Client) (buf : List ℕ) → KeepsAnswer p env (handle p env fuel client buf s)
handle-Keeps p env fuel s w h client buf =
    Ends-map (StepsTo p client (topics_of p s)) (WellFormed p) (handle p env fuel client buf s)
      (λ s' (v', step, shown). shown.valid)
      (handle-StepsTo p env fuel client (topics_of p s) s (topics_of-IsViewOf p s w) h buf)
