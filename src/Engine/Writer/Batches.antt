-- ===== src/Engine/Writer/Batches.antt =====
-- The batches that the store is given: the store is one that keeps a list of the calls.
use monitra.Base.{
  ℕ, ◌+◌, ◌≤◌, ◌≡◌, refl, sym, ap, ◌∙◌, Bool, List, [], ◌∷◌, ◌++◌, append-nil, append_assoc, length,
  length-append, All, All-append, arith, leb, max, Bool-cases, inl, inr,
}
use monitra.Models.{CheckResult}
use monitra.Engine.Writer.{Event, received, tick, closed, Writer, written, flush, push, run}

-- Any store, beside the batches that it was given, in their order.
abbrev pub logged :
    {S : Type 0}
    → (S → List CheckResult → Bool × S)
    → S × List (List CheckResult)
    → List CheckResult
    → Bool × (S × List (List CheckResult))
logged insert (s, log) batch = let (taken, s') = insert s batch in (taken, (s', log ++ batch ∷ []))

abbrev pub concat : List (List CheckResult) → List CheckResult
concat [] = []
concat (batch ∷ log) = batch ++ concat log

concat-append : (xs ys : List (List CheckResult)) → concat (xs ++ ys) ≡ concat xs ++ concat ys
concat-append [] ys = refl
concat-append (x ∷ xs) ys =
    ap (λ zs. x ++ zs) (concat-append xs ys) ∙ sym (append_assoc x (concat xs) (concat ys))

-- What the writer receives, up to the end of the channel.
abbrev pub accepted : List Event → List CheckResult
accepted [] = []
accepted (received result ∷ events) = result ∷ accepted events
accepted (tick ∷ events) = accepted events
accepted (closed ∷ events) = []

-- A batch that the store may be given.
abbrev pub IsBatch : ℕ → List CheckResult → Type 0
IsBatch batch_size batch = (1 ≤ length batch) × (length batch ≤ max 1 batch_size)

module _ {S : Type 0} (insert : S → List CheckResult → Bool × S) where
  -- Everything that the writer has taken, written or waiting.
  abbrev pub taken : Writer (S × List (List CheckResult)) → List CheckResult
  taken w = concat w.store.1 ++ w.batch

  -- Between events the batch has room, and the store was given batches of the right size.
  abbrev pub InOrder : ℕ → Writer (S × List (List CheckResult)) → Type 0
  InOrder batch_size w =
      (length w.batch + 1 ≤ max 1 batch_size) × All (IsBatch batch_size) w.store.1

  taken-written :
      (store : S × List (List CheckResult)) (batch : List CheckResult)
      → concat (written (logged insert) store batch).1 ≡ concat store.1 ++ batch
  unfolding written
  taken-written store [] = sym (append-nil (concat store.1))
  taken-written store (result ∷ batch) =
      concat-append store.1 ((result ∷ batch) ∷ [])
      ∙ ap (λ zs. concat store.1 ++ zs) (append-nil (result ∷ batch))

  taken-flush :
      (w : Writer (S × List (List CheckResult))) → taken (flush (logged insert) w) ≡ taken w
  unfolding flush
  taken-flush w = append-nil _ ∙ taken-written w.store w.batch

  written-IsBatch :
      (batch_size : ℕ) (store : S × List (List CheckResult)) (batch : List CheckResult)
      → length batch ≤ max 1 batch_size
      → All (IsBatch batch_size) store.1
      → All (IsBatch batch_size) (written (logged insert) store batch).1
  unfolding written
  written-IsBatch batch_size store [] le all = all
  written-IsBatch batch_size store (result ∷ batch) le all =
      All-append (IsBatch batch_size) store.1 ((result ∷ batch) ∷ []) all ((omega arith, le), tt)

  flush-InOrder :
      (batch_size : ℕ) (w : Writer (S × List (List CheckResult)))
      → length w.batch ≤ max 1 batch_size
      → All (IsBatch batch_size) w.store.1
      → InOrder batch_size (flush (logged insert) w)
  unfolding flush
  flush-InOrder batch_size w le all =
      (omega arith, written-IsBatch batch_size w.store w.batch le all)

  push_lem :
      (batch_size : ℕ) (w : Writer (S × List (List CheckResult))) (result : CheckResult)
      → InOrder batch_size w
      → (taken (push (logged insert) batch_size w result) ≡ taken w ++ result ∷ [])
        × InOrder batch_size (push (logged insert) batch_size w result)
  unfolding push
  push_lem batch_size w result (room, all) =
      let w' = record w { batch = w.batch ++ result ∷ [] } in
      let longer = length-append {0} w.batch (result ∷ []) in
      let same = sym (append_assoc (concat w.store.1) w.batch (result ∷ [])) in
      elim (Bool-cases (leb batch_size (length w'.batch))) [
        | inl full ↦
            rw (full, push)
              (taken-flush w' ∙ same, flush-InOrder batch_size w' (omega (arith, longer)) all)
        | inr room_left ↦ rw (room_left, push) (same, (ground (arith, longer), all))
      ]

  -- From a writer in order, whatever the store answers: the batches that it is given hold every
  -- result that was received, once and in order, followed by what still waits; and each has at least
  -- one result and at most the batch size, or one where that is 0.
  pub run_lem :
      (batch_size : ℕ) (w : Writer (S × List (List CheckResult))) (events : List Event)
      → InOrder batch_size w
      → (taken (run (logged insert) batch_size w events) ≡ taken w ++ accepted events)
        × InOrder batch_size (run (logged insert) batch_size w events)
  unfolding run
  run_lem batch_size w [] h = (sym (append-nil (taken w)), h)
  run_lem batch_size w (received result ∷ events) h =
      let w' = push (logged insert) batch_size w result in
      let (same, order) = push_lem batch_size w result h in
      let (all, last) = run_lem batch_size w' events order in
      (
        all
            ∙ ap (λ zs. zs ++ accepted events) same
            ∙ append_assoc (taken w) (result ∷ []) (accepted events),
        last,
      )
  run_lem batch_size w (tick ∷ events) (room, all) =
      let (same, last) =
        run_lem batch_size (flush (logged insert) w) events
          (flush-InOrder batch_size w (omega arith) all) in
      (same ∙ ap (λ zs. zs ++ accepted events) (taken-flush w), last)
  run_lem batch_size w (closed ∷ events) (room, all) =
      (taken-flush w ∙ sym (append-nil (taken w)), flush-InOrder batch_size w (omega arith) all)
