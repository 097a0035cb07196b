-- ===== src/Broadcaster/Tests.antt =====
-- Two clients of the event stream, one of which subscribes again under its session.
use a2a_platform_go.Prelude.{
  ℕ, String, ◌≡◌, refl, Bool, true, false, some, List, [], ◌∷◌, find, update, delete, All, arith,
}
use a2a_platform_go.Broadcaster.{
  Broadcaster, Channel, Op, subscribes, unsubscribes, broadcasts, receives, new, run, broadcast,
  is_open,
}
use a2a_platform_go.Broadcaster.Safety.{IsSafe, Succeeds, new-IsSafe, run-Succeeds}
use a2a_platform_go.Broadcaster.Delivery.{WasOffered, broadcast-WasOffered, queue_of}

abbrev calls : List Op
calls =
    subscribes "a"
    ∷ subscribes "b"
    ∷ broadcasts (some "1")
    ∷ subscribes "a"
    ∷ unsubscribes "a"
    ∷ broadcasts (some "2")
    ∷ receives 1
    ∷ []

abbrev channel : ℕ → List String → Bool → Channel
channel id queue closed = record { id = id; queue = queue; closed = closed }

-- The first channel of "a" is never closed.
abbrev left : Broadcaster
left = record {
  clients = ("b", 1) ∷ [];
  channels = channel 0 ("1" ∷ []) false ∷ channel 1 ("2" ∷ []) false ∷ channel 2 [] true ∷ [];
  made = 3;
}

run-calls : run calls new ≡ some left
unfolding run new find update delete
run-calls = refl

run-Succeeds_example : Succeeds (run calls new)
run-Succeeds_example = run-Succeeds calls new new-IsSafe

abbrev two : Broadcaster
two = record {
  clients = ("a", 0) ∷ ("b", 1) ∷ [];
  channels = channel 0 [] false ∷ channel 1 ("1" ∷ []) false ∷ [];
  made = 2;
}

abbrev told : Broadcaster
told = record two { channels = channel 0 ("2" ∷ []) false ∷ channel 1 ("1" ∷ "2" ∷ []) false ∷ [] }

two-IsSafe : IsSafe two
unfolding is_open find
two-IsSafe = record {
  live = (refl, (refl, tt));
  apart = ((refl, tt), (tt, tt));
  made_before = omega arith;
  channels_before = omega arith;
  bounded = omega arith;
}

broadcast-two : broadcast (some "2") two ≡ some told
unfolding broadcast find update
broadcast-two = refl

broadcast-WasOffered_example :
    All (WasOffered "2" two told) two.clients × (queue_of 9 told.channels ≡ queue_of 9 two.channels)
broadcast-WasOffered_example =
    broadcast-WasOffered "2" two told two-IsSafe broadcast-two 9 (refl, (refl, tt))
