-- ===== src/ArrayProto/Reachable.antt =====
-- The maps of the service over arrays after a sequence of datagrams.
use bpf_broker.Proto.Handler.{FitsClient, Client, receive}
use bpf_broker.Proto.View.{View}
use bpf_broker.Proto.View.Steps.{ViewReachable, view_start, view_step}
use bpf_broker.Prelude.{ℕ, ◌≡◌, length, List, Option, none}
use mathlib.Core.Path.{subst}
use bpf_broker.Proto.Service.{done}
use bpf_broker.ArrayProto.{ArrayPlatform, ArrayStore, ArrayEnv}
use bpf_broker.ArrayProto.Handler.{handle}
use bpf_broker.ArrayProto.View.{Represents}
use bpf_broker.ArrayProto.Register.{GivesFresh}
use bpf_broker.Proto.Handler.Ends.{Ends}
use bpf_broker.ArrayProto.Simulation.{Steps, handle-Steps}

-- The maps as the loader makes them.
abbrev pub new_array_store : (p : ArrayPlatform) → ArrayStore p
new_array_store p = record {
  topic_sub_array = p.topics.empty;
  topic_sub_cnt = p.counts.empty;
  inner = λ id. p.arrays.create 0;
}

-- The buffer and the maps after some datagrams; a new array has an id that is new.
pub data ArrayReachable (p : ArrayPlatform) : List ℕ → ArrayStore p → Type 0 where
  array_start : (buf : List ℕ) → length buf ≡ 1024 → ArrayReachable p buf (new_array_store p)
  array_step :
      {buf : List ℕ} {s s' : ArrayStore p}
      → ArrayReachable p buf s
      → (env : ArrayEnv) (client : Client) (datagram : List ℕ) (reply : Option (List ℕ))
      → FitsClient client
      → GivesFresh p env s
      → handle p env client (receive buf datagram) s ≡ done (reply, s')
      → ArrayReachable p (receive buf datagram) s'

new_array_store-Represents : (p : ArrayPlatform) → Represents p (new_array_store p) (λ t. none)
new_array_store-Represents p = record {
  distinct = λ t u i a b. absurd (cc (p.topics.lookup-empty t, a));
  topic = λ t. (p.topics.lookup-empty t, p.counts.lookup-empty t);
}

-- Reachable maps represent a reachable view.
pub ArrayReachable-Represents :
    (p : ArrayPlatform) {buf : List ℕ} {s : ArrayStore p}
    → ArrayReachable p buf s
    → (v : View) × ViewReachable v × Represents p s v
ArrayReachable-Represents p (array_start buf size) =
    (λ t. none, view_start, new_array_store-Represents p)
ArrayReachable-Represents p (array_step {buf} {s} {s'} r env client datagram reply fits fresh e) =
    let (v, reached, w) = ArrayReachable-Represents p r in
    let (v', step, w') =
      subst (Ends (Steps p env client v)) e
        (handle-Steps p env client v s (receive buf datagram) w fresh) in
    (v', view_step reached client fits step, w')
