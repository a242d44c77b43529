-- ===== src/Tests/Tc.antt =====
-- tc_ingress_broker at the sample frame, with two subscribers and helpers that succeed.
use bpf_broker.Prelude.{ℕ, ◌+◌, ◌≤◌, ◌≡◌, refl, true, some, Option, List, [], ◌∷◌, length, map}
use bpf_broker.Frame.{Frame, load8, load16, load32, store8, store16, store32, udp_dest}
use bpf_broker.Parse.{Key, refresh_headers, starts_with, extract_topic_id}
use bpf_broker.Rewrite.{swap_macs, read_bytes, write_bytes}
use bpf_broker.Xdp.Publish.{IsPublish}
use bpf_broker.Tc.{Helpers, Skb, act_shot, callback_fn, tc_ingress_broker}
use bpf_broker.Tc.Verdict.{tc_ingress_broker_shot}
use bpf_broker.Tests.Samples.{publish_frame, packed_subscriber}

-- The replacements leave the checksums to the network card.
abbrev offloaded : Helpers
offloaded = record {
  skb_pull_data = λ f. some f;
  l3_csum_replace = λ f offset from to flags. some f;
  l4_csum_replace = λ f offset from to flags. some f;
  clone_redirect = λ f. true;
  queue_room = true;
}

abbrev sample_skb : Skb
sample_skb = record {
  packet = publish_frame;
  clones = [];
  queue_count = some 0;
  pub_counter = some 0;
  clone_counter = some 0;
}

-- The second subscriber has another port.
abbrev two_keys : Key → Option (List ℕ)
two_keys key = some (packed_subscriber ∷ (packed_subscriber + 65536) ∷ [])

shot : (tc_ingress_broker offloaded two_keys sample_skb).0 ≡ act_shot
unfolding tc_ingress_broker refresh_headers starts_with extract_topic_id swap_macs load8 load16
    load32 store8 store16 store32 read_bytes write_bytes callback_fn
shot = refl

-- One clone for each subscriber, to its own port.
ports :
    map (λ f. load16 f udp_dest) (tc_ingress_broker offloaded two_keys sample_skb).1.clones
    ≡ 0x8813 ∷ 0x8814 ∷ []
unfolding tc_ingress_broker refresh_headers starts_with extract_topic_id swap_macs load8 load16
    load32 store8 store16 store32 read_bytes write_bytes callback_fn
ports = refl

tc_ingress_broker_shot_example :
    (f : Frame) × (key : Key) × (keys : List ℕ) × (some publish_frame ≡ some f)
    × IsPublish f key
    × (two_keys key ≡ some keys)
    × (length (tc_ingress_broker offloaded two_keys sample_skb).1.clones ≤ 0 + length keys)
tc_ingress_broker_shot_example = tc_ingress_broker_shot offloaded two_keys sample_skb shot
