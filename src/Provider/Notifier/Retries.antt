-- ===== src/Provider/Notifier/Retries.antt =====
-- What the retry queue holds.
use monitra.Base.{
  Option, none, some, ◌+◌, ◌-◌, ◌≤◌, String, ◌≡◌, refl, sym, ap, ◌∙◌, Bool, false, List, [], ◌∷◌,
  ◌++◌, append-nil, append_assoc, length, length-append, arith, if◌then◌else◌, Bool-cases, inl, inr,
  push_bounded, push_bounded_room, length-push_bounded,
}
use monitra.Provider.Notifier.{
  RetryingNotifier, new, enqueue, notify_recording_outcome, redeliver, drain_retries,
}

-- The bound that the queue keeps: its capacity, or one message where that is 0.
abbrev pub WithinBound : {S : Type 0} → RetryingNotifier S → Type 0
WithinBound n = length n.queue ≤ n.capacity + (1 - n.capacity)

module _ {S : Type 0} (deliver : S → String → Bool × S) where
  -- The messages that the sink refuses when they are offered one after another, and the sink after
  -- the last.
  unfoldable pub offer : S → List String → List String × S
  offer s [] = ([], s)
  offer s (message ∷ rest) =
      let (taken, s') = deliver s message in
      let (refused, last) = offer s' rest in (if taken then refused else message ∷ refused, last)

  redeliver-queue :
      (n : RetryingNotifier S) (messages : List String)
      → length n.queue + length messages ≤ n.capacity + (1 - n.capacity)
      → ((redeliver deliver n messages).queue ≡ n.queue ++ (offer n.inner messages).0)
        × ((redeliver deliver n messages).inner ≡ (offer n.inner messages).1)
        × ((redeliver deliver n messages).capacity ≡ n.capacity)
  unfolding redeliver offer
  redeliver-queue n [] h = (sym (append-nil n.queue), refl, refl)
  redeliver-queue n (message ∷ rest) h =
      let inner' = (deliver n.inner message).1 in
      let later = (offer inner' rest).0 in
      let kept = enqueue (record n { inner = inner' }) message in
      let room : kept.queue ≡ n.queue ++ message ∷ [] =
        push_bounded_room n.capacity n.queue message (omega arith) in
      elim (Bool-cases (deliver n.inner message).0) [
        | inl taken ↦
            ground (arith, redeliver-queue (record n { inner = inner' }) rest (omega arith))
        | inr refused ↦
            let (q, i, c) =
              redeliver-queue kept rest
                (rw room (omega (arith, length-append {0} n.queue (message ∷ [])))) in
            let q' = q ∙ ap (λ xs. xs ++ later) room ∙ append_assoc n.queue (message ∷ []) later in
            ground (arith, q', i, c)
      ]

  -- A drain of a queue within its bound leaves just the messages that the sink refused again, in
  -- their order, and loses none: it offered each of them once.
  pub drain_retries-queue :
      (n : RetryingNotifier S)
      → WithinBound n
      → ((drain_retries deliver n).queue ≡ (offer n.inner n.queue).0)
        × ((drain_retries deliver n).inner ≡ (offer n.inner n.queue).1)
  unfolding drain_retries
  drain_retries-queue n h =
      let (q, i, c) = redeliver-queue (record n { queue = [] }) n.queue (omega arith) in (q, i)

  length-offer : (s : S) (messages : List String) → length (offer s messages).0 ≤ length messages
  unfolding offer
  length-offer s [] = omega arith
  length-offer s (message ∷ rest) = ground (arith, length-offer (deliver s message).1 rest)

  notify-WithinBound :
      (n : RetryingNotifier S) (message : String)
      → WithinBound n
      → WithinBound (notify_recording_outcome deliver n message).1
  unfolding notify_recording_outcome
  notify-WithinBound n message h = ground (arith, length-push_bounded n.capacity n.queue message h)

  drain-WithinBound :
      (n : RetryingNotifier S) → WithinBound n → WithinBound (drain_retries deliver n)
  unfolding drain_retries
  drain-WithinBound n h =
      let (q, i, c) = redeliver-queue (record n { queue = [] }) n.queue (omega arith) in
      omega (arith, ap (λ xs. length xs) q, c, length-offer n.inner n.queue)

  -- What the alert task does: `some` is a message to notify, `none` a tick that drains.
  unfoldable pub work : RetryingNotifier S → List (Option String) → RetryingNotifier S
  work n [] = n
  work n (some message ∷ rest) = work (notify_recording_outcome deliver n message).1 rest
  work n (none ∷ rest) = work (drain_retries deliver n) rest

  -- Whatever the sink answers, the queue of a notifier never passes its bound.
  pub work-WithinBound :
      (n : RetryingNotifier S) (steps : List (Option String))
      → WithinBound n
      → WithinBound (work n steps)
  unfolding work
  work-WithinBound n [] h = h
  work-WithinBound n (some message ∷ rest) h =
      work-WithinBound (notify_recording_outcome deliver n message).1 rest
        (notify-WithinBound n message h)
  work-WithinBound n (none ∷ rest) h =
      work-WithinBound (drain_retries deliver n) rest (drain-WithinBound n h)

  -- The bound is one more than a capacity of 0: a refused message is then kept all the same.
  pub zero_capacity_keeps_one :
      (s : S) (message : String)
      → (deliver s message).0 ≡ false
      → (notify_recording_outcome deliver (new s 0) message).1.queue ≡ message ∷ []
  unfolding notify_recording_outcome new push_bounded
  zero_capacity_keeps_one s message h = ground arith
