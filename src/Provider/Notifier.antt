-- ===== src/Provider/Notifier.antt =====
-- `RetryingNotifier` of crates/provider/src/policy.rs: a notifier that queues what its sink does
-- not take. The sink is a parameter: its state, and what one delivery answers (true for `Ok`).
pub mod Retries
mod Tests
use monitra.Base.{ℕ, String, Bool, true, false, List, [], ◌∷◌, length, push_bounded, if◌then◌else◌}

pub data DeliveryOutcome : Type 0 where
  sent queued : DeliveryOutcome

-- The retry queue with its bound, and the state of the wrapped sink.
pub record RetryingNotifier (S : Type 0) : Type 0 where
  pub inner : S
  pub queue : List String
  pub capacity : ℕ

module _ {S : Type 0} where
  unfoldable pub enqueue : RetryingNotifier S → String → RetryingNotifier S
  enqueue n message = record n { queue = push_bounded n.capacity n.queue message }

  unfoldable pub queue_len : RetryingNotifier S → ℕ
  queue_len n = length n.queue

unfoldable pub new : {S : Type 0} → S → ℕ → RetryingNotifier S
new inner capacity = record { inner = inner; queue = []; capacity = capacity }

module _ {S : Type 0} (deliver : S → String → Bool × S) where
  unfoldable pub notify_recording_outcome :
      RetryingNotifier S → String → DeliveryOutcome × RetryingNotifier S
  unfolding enqueue
  notify_recording_outcome n message =
      let (taken, inner') = deliver n.inner message in
      if taken
      then (sent, record n { inner = inner' })
      else (queued, enqueue (record n { inner = inner' }) message)

  -- The loop of `drain_retries` over the messages that were pending.
  unfoldable pub redeliver : RetryingNotifier S → List String → RetryingNotifier S
  unfolding enqueue
  redeliver n [] = n
  redeliver n (message ∷ rest) =
      let (taken, inner') = deliver n.inner message in
      redeliver
        (if taken
          then record n { inner = inner' }
          else enqueue (record n { inner = inner' }) message)
        rest

  unfoldable pub drain_retries : RetryingNotifier S → RetryingNotifier S
  unfolding redeliver
  drain_retries n = redeliver (record n { queue = [] }) n.queue
