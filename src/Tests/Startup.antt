-- ===== src/Tests/Startup.antt =====
-- The loaders, the services' opening and their loops, from the sample states.
use bpf_broker.Prelude.{
  ℕ, zero, suc, ◌≡◌, ◌≤◌, refl, true, List, [], ◌∷◌, Option, none, some, replicate, arith,
}
use mathlib.Core.Path.{subst}
use bpf_broker.Prelude.{drop, ◌%◌, ◌^◌}
use bpf_broker.Proto.Handler.{receive}
use bpf_broker.Loader.{Start, running, retrying, exited}
use bpf_broker.Loader.Kernel.{ObjGet}
use bpf_broker.Loader.Tables.{map_topic_subscribe, map_topic_sub_cnt, map_topic_first_sub}
use bpf_broker.Loader.Main.{main_broker, main_array}
use bpf_broker.Loader.EndedArray.{IsArrayEnd, main_array-IsArrayEnd}
use bpf_broker.Proto.Startup.{
  Descriptors, open_service, answer, serve, SafeSender, Sender, RunsSafe, EndsReached,
  serve-EndsReached,
}
use bpf_broker.Proto.Polling.{max_cpus, sum, HasGrown, poll_rps_loop, poll_rps_loop-sum}
use bpf_broker.Proto.Handler.Reachable.{new_store, Reachable, start}
use bpf_broker.Broker.Startup.{IsMap, main_broker-open_service}
use bpf_broker.Tests.Loader.{
  Programs, function_host, sample_libc, sample_object, plenty, stale, is_running, waits,
}
use bpf_broker.Tests.Service.{sample, sample_env, registered_t}
use bpf_broker.Tests.Broker.{
  client, client-FitsClient, quiet_env, buffer, registering, subscribing, Ready-first, Ready-second,
  registered_run,
}

-- A descriptor is the number under which its object was pinned.
abbrev pins_by_name : ObjGet function_host
pins_by_name = record {
  obj_get = λ s path. s.pins (drop 12 path);
  object = λ d. d;
  get = λ s name fd d pinned e. cc (pinned, e);
}

state_of : Start Programs → Programs
state_of (running s) = s
state_of (retrying s) = s
state_of (exited code s) = s

running_state : (r : Start Programs) → is_running r ≡ true → r ≡ running (state_of r)
unfolding state_of
running_state (running s) e = refl
running_state (retrying s) e = absurd (cc e)
running_state (exited code s) e = absurd (cc e)

abbrev waiting : Programs
waiting = state_of (
    main_broker function_host sample_object sample_libc plenty 2 ((b'3' ∷ b'8' ∷ []) ∷ []) [] stale)

main_broker-open_service_example :
    (d : Descriptors) × (open_service
        (pins_by_name.obj_get waiting)
        (some 3)
        (λ sock addr port. true)
      ≡ some d)
    × (d.sock ≡ 3)
    × IsMap function_host pins_by_name sample_object map_topic_subscribe d.outer_fd
    × IsMap function_host pins_by_name sample_object map_topic_sub_cnt d.sub_count_fd
    × IsMap function_host pins_by_name sample_object map_topic_first_sub d.first_sub_fd
main_broker-open_service_example =
    main_broker-open_service function_host pins_by_name sample_object sample_libc plenty
      ((b'3' ∷ b'8' ∷ []) ∷ []) [] stale waiting 3 (λ sock addr port. true) refl 0
      (running_state
        (main_broker function_host sample_object sample_libc plenty 2 ((b'3' ∷ b'8' ∷ []) ∷ []) []
          stale)
        waits)
      (λ name pinned. pinned)

abbrev array_run : Start Programs
array_run =
    main_array function_host sample_object sample_libc plenty ((b'3' ∷ b'8' ∷ []) ∷ [])
      (some 2 ∷ []) stale

main_array-IsArrayEnd_example :
    IsArrayEnd function_host sample_object sample_libc plenty ((b'3' ∷ b'8' ∷ []) ∷ []) array_run
main_array-IsArrayEnd_example =
    main_array-IsArrayEnd function_host sample_object sample_libc plenty ((b'3' ∷ b'8' ∷ []) ∷ [])
      (some 2 ∷ []) stale

-- A receive that fails, REGISTER and SUBSCRIBE.
abbrev received : List (Option (Sender sample 1 × List ℕ))
received =
    none ∷ some ((sample_env, client), registering) ∷ some ((quiet_env, client), subscribing) ∷ []

received-RunsSafe :
    RunsSafe
      (answer sample 1)
      (SafeSender sample 1)
      (Reachable sample)
      received
      buffer
      (new_store sample)
received-RunsSafe = (
  (client-FitsClient, Ready-first),
  λ reply s' e.
      let same : registered_t ≡ s' = cc (registered_run, e) in
      subst
        (λ s.
          RunsSafe (answer sample 1) (SafeSender sample 1) (Reachable sample)
            (some ((quiet_env, client), subscribing) ∷ []) (receive buffer registering) s)
        same ((client-FitsClient, Ready-second), λ again s2 e2. tt),
)

serve-EndsReached_example :
    EndsReached
      (answer sample 1)
      (SafeSender sample 1)
      (Reachable sample)
      2
      (serve sample 1 received buffer (new_store sample))
serve-EndsReached_example =
    serve-EndsReached sample 1 received buffer (new_store sample) (start buffer refl)
      received-RunsSafe

HasGrown-replicate : (n a b : ℕ) → a ≤ b → HasGrown (replicate n a) (replicate n b)
HasGrown-replicate zero a b h = tt
HasGrown-replicate (suc n) a b h = (h, HasGrown-replicate n a b h)

-- Three publishes on each CPU, a lookup that fails, and two more.
abbrev lookups : List (Option (List ℕ))
lookups = some (replicate max_cpus 3) ∷ none ∷ some (replicate max_cpus 5) ∷ []

poll_rps_loop-sum_example :
    (log : List ℕ) × (poll_rps_loop true lookups ≡ some log)
    × (sum log % 2 ^ 32 ≡ sum (replicate max_cpus 5) % 2 ^ 32)
poll_rps_loop-sum_example = poll_rps_loop-sum lookups (
  HasGrown-replicate max_cpus 0 3 (omega arith),
  (HasGrown-replicate max_cpus 3 5 (omega arith), tt),
)
