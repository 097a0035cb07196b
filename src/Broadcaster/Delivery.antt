-- ===== src/Broadcaster/Delivery.antt =====
-- What one Broadcast adds to the channels.
use mathlib.Core.Option.{some-injective}
use a2a_platform_go.Prelude.{
  ℕ, String, ◌≡◌, refl, sym, ◌∙◌, ap, true, false, Option, none, some, List, [], ◌∷◌, ◌++◌, ◌=?◌,
  ltb, arith, if◌then◌else◌, find, update, length, All, All-map, All-both, Bool-cases, inl, inr,
}
use a2a_platform_go.Broadcaster.{
  Channel, Broadcaster, capacity, is_channel, is_open, put, send, and_then, send_all, broadcast,
}
use a2a_platform_go.Broadcaster.Safety.{IsSafe, NotIn, IsApart, put-id}

abbrev queue_or : Option Channel → List String
queue_or none = []
queue_or (some c) = c.queue

-- What waits in the channel with this number.
unfoldable pub queue_of : ℕ → List Channel → List String
unfolding find
queue_of id channels = queue_or (find (is_channel id) channels)

-- A queue that is offered an event: it takes it if there is a place.
abbrev pub offered : String → List String → List String
offered msg queue = if ltb (length queue) capacity then queue ++ msg ∷ [] else queue

queue_of-put_self :
    (msg : String) (id : ℕ) (channels : List Channel)
    → is_open id channels ≡ true
    → queue_of id (update (is_channel id) (put msg) channels) ≡ offered msg (queue_of id channels)
unfolding queue_of is_open find update
queue_of-put_self msg id [] h = cc
queue_of-put_self msg id (c ∷ cs) h = elim (Bool-cases (id =? c.id)) [
  | inl here ↦ rw (here, put-id msg c) (rw here (put_queue msg c))
  | inr other ↦ rw (other, other) (queue_of-put_self msg id cs (rw other at h))
]
  where
    put_queue : (msg : String) (c : Channel) → (put msg c).queue ≡ offered msg c.queue
    put_queue msg c = ground arith

queue_of-put_other :
    (msg : String) (id other : ℕ) (channels : List Channel)
    → id =? other ≡ false
    → queue_of id (update (is_channel other) (put msg) channels) ≡ queue_of id channels
unfolding queue_of find update
queue_of-put_other msg id other [] h = refl
queue_of-put_other msg id other (c ∷ cs) h =
    ground (arith, put-id msg c, queue_of-put_other msg id other cs)

-- What `send` has done where it has not panicked.
send_ok :
    (msg : String) (id : ℕ) (b c : Broadcaster)
    → send msg id b ≡ some c
    → (is_open id b.channels ≡ true) × (c.channels ≡ update (is_channel id) (put msg) b.channels)
unfolding send
send_ok msg id b c h = elim (Bool-cases (is_open id b.channels)) [
  | inl live ↦
      (live, ap (λ (x : Broadcaster). x.channels) (sym (some-injective _ _ (rw live at h))))
  | inr dead ↦ let nothing : none ≡ some c = rw dead at h in cc
]

and_then-some :
    (o : Option Broadcaster) (f : Broadcaster → Option Broadcaster) (c : Broadcaster)
    → and_then o f ≡ some c
    → (b : Broadcaster) × (o ≡ some b) × (f b ≡ some c)
and_then-some none f c h = cc
and_then-some (some b) f c h = (b, refl, h)

send_all-other :
    (msg : String) (id : ℕ) (clients : List (String × ℕ)) (b c : Broadcaster)
    → NotIn id clients
    → send_all msg clients b ≡ some c
    → queue_of id c.channels ≡ queue_of id b.channels
unfolding send_all
send_all-other msg id [] b c out h =
    ap (λ (x : Broadcaster). queue_of id x.channels) (sym (some-injective b c h))
send_all-other msg id (client ∷ clients) b c (other, out) h =
    let (d, first, rest) = and_then-some (send msg client.1 b) (send_all msg clients) c h in
    let (_, sent) = send_ok msg client.1 b d first in
    send_all-other msg id clients d c out rest
    ∙ ap (queue_of id) sent
    ∙ queue_of-put_other msg id client.1 b.channels other

abbrev pub WasOffered : String → Broadcaster → Broadcaster → String × ℕ → Type 0
WasOffered msg b c client =
    queue_of client.1 c.channels ≡ offered msg (queue_of client.1 b.channels)

send_all-WasOffered :
    (msg : String) (clients : List (String × ℕ)) (b c : Broadcaster)
    → IsApart clients
    → send_all msg clients b ≡ some c
    → All (WasOffered msg b c) clients
unfolding send_all
send_all-WasOffered msg [] b c apart h = tt
send_all-WasOffered msg (client ∷ clients) b c (out, apart) h =
    let (d, first, rest) = and_then-some (send msg client.1 b) (send_all msg clients) c h in
    let (live, sent) = send_ok msg client.1 b d first in
    (
      send_all-other msg client.1 clients d c out rest
          ∙ ap (queue_of client.1) sent
          ∙ queue_of-put_self msg client.1 b.channels live,
      All-map _ _ clients
          (λ x both.
            both.1
            ∙ ap (offered msg) (
                ap (queue_of x.1) sent
                ∙ queue_of-put_other msg x.1 client.1 b.channels (ground arith)))
          (All-both _ _ clients out (send_all-WasOffered msg clients d c apart rest)),
    )

module _ (msg : String) (b c : Broadcaster) (safe : IsSafe b)
    (done : broadcast (some msg) b ≡ some c) where
  -- Where each client has an open channel of its own, a broadcast offers the event once to the
  -- channel of each client: it is added at the end, unless 64 events wait there. The queue of a
  -- channel that belongs to no client is as before.
  pub broadcast-WasOffered :
      (id : ℕ)
      → NotIn id b.clients
      → All (WasOffered msg b c) b.clients × (queue_of id c.channels ≡ queue_of id b.channels)
  unfolding broadcast
  broadcast-WasOffered id out = (
    send_all-WasOffered msg b.clients b c safe.apart done,
    send_all-other msg id b.clients b c out done,
  )
