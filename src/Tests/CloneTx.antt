-- ===== src/Tests/CloneTx.antt =====
-- The cloning program at the sample frame, with two subscribers.
use bpf_broker.Prelude.{ℕ, ◌+◌, ◌/◌, ◌==◌, if◌then◌else◌, ◌≡◌, ◌≢◌, ◌↔◌, refl, arith, some}
use bpf_broker.Parse.{Key}
use bpf_broker.Rewrite.Reply.{IsForwarded}
use bpf_broker.Xdp.Publish.{IsPublish}
use bpf_broker.CloneTx.{xdp_tx, CloneTables, clone_copy, original}
use bpf_broker.CloneTx.Verdict.{SubscriberOf, clone_copy-tx_iff, original-fan_out}
use bpf_broker.Tests.Samples.{publish_frame, publish_frame-IsBytes, key_t, packed_subscriber}
use bpf_broker.Tests.Xdp.{publish_frame-IsPublish}

-- The second subscriber has another port.
abbrev nth_subscriber : ℕ → ℕ
nth_subscriber k = if k == 0 then packed_subscriber else packed_subscriber + 65536

abbrev two_subscribers : CloneTables
two_subscribers = record {
  topic_sub_cnt = λ k. some 2;
  topic_sub_array = λ k. some (λ i. some (nth_subscriber i));
}

clone_copy-tx_iff_example : ((clone_copy two_subscribers 2 publish_frame).0 ≡ xdp_tx) ↔ (
    (key : Key) × (packed : ℕ) × IsPublish publish_frame key
    × (◌≢◌ {A = ℕ} 2 0)
    × SubscriberOf two_subscribers key 2 packed)
clone_copy-tx_iff_example = clone_copy-tx_iff two_subscribers publish_frame 2

-- The second copy goes to the second subscriber.
original-fan_out_example :
    ((original two_subscribers (some 0) publish_frame).0 / 32 ≡ 2)
    × ((original two_subscribers (some 0) publish_frame).1 ≡ some 1)
    × ((clone_copy two_subscribers 2 publish_frame).0 ≡ xdp_tx)
    × IsForwarded publish_frame (nth_subscriber 1) (clone_copy two_subscribers 2 publish_frame).1
original-fan_out_example =
    original-fan_out two_subscribers publish_frame (some 0) key_t 2 1 (nth_subscriber 1)
      (λ i. some (nth_subscriber i)) publish_frame-IsBytes publish_frame-IsPublish refl
      (omega arith) (omega arith) refl refl (omega arith)
