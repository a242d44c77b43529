-- ===== src/Proto/Handler/Reachable.antt =====
-- The maps after a sequence of commands.
use bpf_broker.Prelude.{ℕ, ◌≡◌, length, List, Option, none, some, All, ◌<◌, ◌^◌}
use mathlib.Core.Path.{subst}
use bpf_broker.Proto.Store.{Platform, Store, Env}
use bpf_broker.Proto.Service.{done}
use bpf_broker.Proto.Service.Invariant.{id_of, subscribers, WellFormed}
use bpf_broker.Proto.Handler.{Client, FitsClient, receive, handle}
use bpf_broker.Proto.Handler.Invariant.{KeepsAnswer, handle-Keeps}
use bpf_broker.Proto.Service.Viewed.{IsViewOf, known_topic}
use bpf_broker.Proto.View.Same.{All-of_Holds, Holds-All}
use bpf_broker.Parse.{Key}
use bpf_broker.Proto.View.{View}
use bpf_broker.Proto.View.Steps.{ViewReachable, view_start, view_step, ViewReachable-FitsView}
use bpf_broker.Proto.Handler.Ends.{Ends}
use bpf_broker.Proto.Handler.Steps.{Ready, StepsTo, handle-StepsTo}

-- The maps as the loader makes them.
abbrev pub new_store : (p : Platform) → Store p
new_store p = record {
  topic_subscribe = p.topics.empty;
  topic_sub_cnt = p.counts.empty;
  topic_first_sub = p.firsts.empty;
  inner = λ id. p.subs.empty;
}

pub new_store-WellFormed : (p : Platform) → WellFormed p (new_store p)
new_store-WellFormed p = record {
  distinct = λ t u i a b. absurd (cc (p.topics.lookup-empty t, a));
  counted = λ t n e. absurd (cc (p.counts.lookup-empty t, e));
  topic = λ t i a. absurd (cc (p.topics.lookup-empty t, a));
}

-- The buffer and the maps after some datagrams from clients with addresses of 32 bits and ports of 16, each handled under its own conditions; a receive
-- that fails changes nothing.
pub data Reachable (p : Platform) : List ℕ → Store p → Type 0 where
  start : (buf : List ℕ) → length buf ≡ 1024 → Reachable p buf (new_store p)
  step :
      {buf : List ℕ} {s s' : Store p}
      → Reachable p buf s
      → (env : Env) (fuel : ℕ) (client : Client) (datagram : List ℕ) (reply : Option (List ℕ))
      → FitsClient client
      → Ready p env fuel s
      → handle p env fuel client (receive buf datagram) s ≡ done (reply, s')
      → Reachable p (receive buf datagram) s'

-- The maps are well formed after every sequence of datagrams that starts at empty maps, if each
-- comes from an address of 32 bits and a port of 16 and is handled under Ready: inner maps have ids
-- of their own, only registered topics have a count, a count of one with a stored first subscriber
-- means that this is the only subscriber, and no count or a count of zero means that there is none.
pub Reachable-WellFormed :
    (p : Platform) {buf : List ℕ} {s : Store p} → Reachable p buf s → WellFormed p s
Reachable-WellFormed p (start buf size) = new_store-WellFormed p
Reachable-WellFormed p (step {buf} {s} {s'} r env fuel client datagram reply fits h e) =
    subst (KeepsAnswer p env) e
      (handle-Keeps p env fuel s (Reachable-WellFormed p r) h client (receive buf datagram))

-- The maps are those of a view that some steps of the view reach.
pub Reachable-IsViewOf :
    (p : Platform) {buf : List ℕ} {s : Store p}
    → Reachable p buf s
    → (v : View) × ViewReachable v × IsViewOf p v s
Reachable-IsViewOf p (start buf size) = (
  λ t. none,
  view_start,
  record { valid = new_store-WellFormed p; topic = λ t. p.topics.lookup-empty t },
)
Reachable-IsViewOf p (step {buf} {s} {s'} r env fuel client datagram reply fits h e) =
    let (v, reached, w) = Reachable-IsViewOf p r in
    let (v', one, w') =
      subst (Ends (StepsTo p client v)) e
        (handle-StepsTo p env fuel client v s w h (receive buf datagram)) in
    (v', view_step reached client fits one, w')

-- The subscribers are numbers of 64 bits.
pub IsViewOf-small :
    (p : Platform) (v : View) (s : Store p) (key : Key) (id : ℕ)
    → ViewReachable v
    → IsViewOf p v s
    → id_of p s key ≡ some id
    → All (λ packed. packed < 2 ^ 64) (subscribers p s id)
IsViewOf-small p v s key id reached w at =
    let (l, here, same) = known_topic p v s key id w at in
    All-of_Holds (λ packed. packed < 2 ^ 64) (subscribers p s id)
      (λ x a.
        Holds-All (λ packed. packed < 2 ^ 64) l x (ViewReachable-FitsView reached key l here)
          ((same x).0 a))
