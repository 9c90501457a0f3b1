-- ===== src/Provider/Notifier/Tests.antt =====
-- A sink that takes every second message, and an instance of the theorem.
use monitra.Base.{String, ◌≡◌, Bool, true, false, [], ◌∷◌, arith}
use monitra.Provider.Notifier.{RetryingNotifier, drain_retries}
use monitra.Provider.Notifier.Retries.{offer, drain_retries-queue}

abbrev deliver : Bool → String → Bool × Bool
deliver true message = (true, false)
deliver false message = (false, true)

abbrev three : RetryingNotifier Bool
three = record { inner = true; queue = "a" ∷ "b" ∷ "c" ∷ []; capacity = 3 }

drain_retries-queue_example :
    ((drain_retries deliver three).queue ≡ "b" ∷ []) × ((drain_retries deliver three).inner ≡ false)
unfolding offer
drain_retries-queue_example = drain_retries-queue deliver three (omega arith)
