-- ===== src/Broadcaster/Safety.antt =====
-- No call of the broadcaster panics, and no channel holds more than its capacity.
use a2a_platform_go.Prelude.{
  ℕ, ◌≤◌, ◌<◌, String, ◌≡◌, refl, ◌∙◌, subst, Bool, true, false, Option, none, some, List, [], ◌∷◌,
  ◌++◌, ◌=?◌, arith, find, update, delete, length, length-append, All, All-append, All-map,
  All-update, All-delete, All-find, All-both, Bool-cases, Option-cases, inl, inr,
}
use mathlib.Core.Option.{some-injective}
use a2a_platform_go.Broadcaster.{
  Channel, Broadcaster, new, capacity, is_session, is_channel, is_open, subscribe, shut, forget,
  unsubscribe, put, send_all, pop_queue, receive, Op, subscribes, unsubscribes, broadcasts,
  receives, step, run,
}

-- No other client has this channel.
abbrev pub NotIn : ℕ → List (String × ℕ) → Type 0
NotIn id = All (λ client. id =? client.1 ≡ false)

abbrev pub IsApart : List (String × ℕ) → Type 0
IsApart [] = Unit
IsApart (client ∷ clients) = NotIn client.1 clients × IsApart clients

pub record IsSafe (b : Broadcaster) : Type 0 where
  -- each client's channel is open, and no other client's
  pub live : All (λ client. is_open client.1 b.channels ≡ true) b.clients
  pub apart : IsApart b.clients
  -- channels are numbered below `made`, and none is overfull
  pub made_before : All (λ client. client.1 < b.made) b.clients
  pub channels_before : All (λ (c : Channel). c.id < b.made) b.channels
  pub bounded : All (λ (c : Channel). length c.queue ≤ capacity) b.channels

pub new-IsSafe : IsSafe new
unfolding new
new-IsSafe = record { live = tt; apart = tt; made_before = tt; channels_before = tt; bounded = tt }

NotIn-delete :
    (id : ℕ) (p : String × ℕ → Bool) (clients : List (String × ℕ))
    → NotIn id clients
    → NotIn id (delete p clients)
NotIn-delete id p clients h = All-delete _ _ p clients (λ x _ k. k) h

IsApart-delete :
    (p : String × ℕ → Bool) (clients : List (String × ℕ))
    → IsApart clients
    → IsApart (delete p clients)
unfolding delete
IsApart-delete p [] h = tt
IsApart-delete p (c ∷ cs) (out, rest) = elim (Bool-cases (p c)) [
  | inl t ↦ rw t (IsApart-delete p cs rest)
  | inr e ↦ rw e (NotIn-delete c.1 p cs out, IsApart-delete p cs rest)
]

-- Whether a channel is open is not touched by what keeps numbers and marks, ...
pub is_open-update :
    (id : ℕ) (p : Channel → Bool) (f : Channel → Channel)
    → ((c : Channel) → (f c).id ≡ c.id)
    → ((c : Channel) → (f c).closed ≡ c.closed)
    → (channels : List Channel) → is_open id (update p f channels) ≡ is_open id channels
unfolding is_open find update
is_open-update id p f same_id same_mark [] = refl
is_open-update id p f same_id same_mark (c ∷ cs) =
    ground (arith, same_id c, same_mark c, is_open-update id p f same_id same_mark cs)

-- ... nor by closing another, ...
is_open-shut :
    (id other : ℕ) (channels : List Channel)
    → id =? other ≡ false
    → is_open id (update (is_channel other) shut channels) ≡ is_open id channels
unfolding is_open find update
is_open-shut id other [] h = refl
is_open-shut id other (c ∷ cs) h = ground (arith, is_open-shut id other cs)

-- ... nor by a new one.
is_open-append :
    (id : ℕ) (channels : List Channel) (c : Channel)
    → is_open id channels ≡ true
    → is_open id (channels ++ c ∷ []) ≡ true
unfolding is_open find
is_open-append id [] c h = cc
is_open-append id (x ∷ xs) c h = ground (arith, is_open-append id xs c)

is_open-last :
    (id : ℕ) (channels : List Channel) (c : Channel)
    → All (λ (x : Channel). x.id < id) channels
    → c.id ≡ id
    → c.closed ≡ false
    → is_open id (channels ++ c ∷ []) ≡ true
unfolding is_open find
is_open-last id [] c h same mark = ground arith
is_open-last id (x ∷ xs) c (below, h) same mark = ground (arith, is_open-last id xs c h)

NotIn-found :
    (p : String × ℕ → Bool) (clients : List (String × ℕ)) (c : String × ℕ)
    → find p clients ≡ some c
    → IsApart clients
    → NotIn c.1 (delete p clients)
unfolding find delete
NotIn-found p [] c e h = tt
NotIn-found p (x ∷ xs) c e (out, rest) = elim (Bool-cases (p x)) [
  | inl t ↦
      let same : x ≡ c = some-injective x c (rw t at e) in
      rw t (NotIn-delete c.1 p xs (subst (λ (y : String × ℕ). NotIn y.1 xs) same out))
  | inr f ↦
      let found : find p xs ≡ some c = rw f at e in
      let (other, _) = All-find (λ y. x.1 =? y.1 ≡ false) p xs c found out in
      rw f (ground arith, NotIn-found p xs c found rest)
]

subscribe-IsSafe : (session : String) (b : Broadcaster) → IsSafe b → IsSafe (subscribe session b)
unfolding subscribe
subscribe-IsSafe session b h =
    let p = is_session session in
    record {
      live = (
        is_open-last b.made b.channels (record { id = b.made; queue = []; closed = false })
            h.channels_before refl refl,
        All-delete _ _ p b.clients (λ c _ open_before. is_open-append c.1 b.channels _ open_before)
            h.live,
      );
      apart = (
        All-delete _ _ p b.clients (λ c _ below. ground arith) h.made_before,
        IsApart-delete p b.clients h.apart,
      );
      made_before =
          (omega arith, All-delete _ _ p b.clients (λ c _ below. omega arith) h.made_before);
      channels_before =
          All-append _ b.channels _
            (All-map _ _ b.channels (λ c below. omega arith) h.channels_before) (omega arith, tt);
      bounded = All-append _ b.channels _ h.bounded (omega arith, tt);
    }

-- An update of the queues that keeps them within the capacity.
queues-IsSafe :
    (p : Channel → Bool) (f : Channel → Channel) (b : Broadcaster)
    → ((c : Channel) → (f c).id ≡ c.id)
    → ((c : Channel) → (f c).closed ≡ c.closed)
    → ((c : Channel) → length c.queue ≤ capacity → length (f c).queue ≤ capacity)
    → IsSafe b
    → IsSafe (record b { channels = update p f b.channels })
queues-IsSafe p f b same_id same_mark fits h = record {
  live =
      All-map _ _ b.clients (λ c live. is_open-update c.1 p f same_id same_mark b.channels ∙ live)
        h.live;
  apart = h.apart;
  made_before = h.made_before;
  channels_before =
      All-update _ _ p f b.channels (λ c _ below. rw (same_id c) below) (λ c _ below. below)
        h.channels_before;
  bounded = All-update _ _ p f b.channels (λ c _ le. fits c le) (λ c _ le. le) h.bounded;
}

put_fits :
    (msg : String) (c : Channel) → length c.queue ≤ capacity → length (put msg c).queue ≤ capacity
put_fits msg c h = grind (arith, length-append c.queue (msg ∷ []))

pop_queue-le : (queue : List String) → length (pop_queue queue) ≤ length queue
pop_queue-le [] = omega arith
pop_queue-le (msg ∷ queue) = omega arith

receive-IsSafe : (id : ℕ) (b : Broadcaster) → IsSafe b → IsSafe (receive id b)
unfolding receive
receive-IsSafe id b h =
    queues-IsSafe (is_channel id) (λ c. record c { queue = pop_queue c.queue }) b (λ c. refl)
      (λ c. refl) (λ c le. omega (arith, pop_queue-le c.queue)) h

pub put-id : (msg : String) (c : Channel) → (put msg c).id ≡ c.id
put-id msg c = ground arith

pub put-closed : (msg : String) (c : Channel) → (put msg c).closed ≡ c.closed
put-closed msg c = ground arith

-- What an operation that does not panic leaves.
abbrev pub Succeeds : Option Broadcaster → Type 0
Succeeds r = (b : Broadcaster) × (r ≡ some b) × IsSafe b

send_all-Succeeds :
    (msg : String) (clients : List (String × ℕ)) (b : Broadcaster)
    → All (λ client. is_open client.1 b.channels ≡ true) clients
    → IsSafe b
    → Succeeds (send_all msg clients b)
unfolding send_all
send_all-Succeeds msg [] b live h = (b, refl, h)
send_all-Succeeds msg (client ∷ clients) b (now, live) h =
    let p = is_channel client.1 in
    rw now (
      send_all-Succeeds msg clients (record b { channels = update p (put msg) b.channels })
        (All-map _ _ clients
          (λ c open_before.
            is_open-update c.1 p (put msg) (put-id msg) (put-closed msg) b.channels ∙ open_before)
          live)
        (queues-IsSafe p (put msg) b (put-id msg) (put-closed msg) (put_fits msg) h))

unsubscribe-IsSafe :
    (session : String) (b : Broadcaster) (client : String × ℕ)
    → find (is_session session) b.clients ≡ some client
    → IsSafe b
    → IsSafe (forget session (record b { channels = update (is_channel client.1) shut b.channels }))
unsubscribe-IsSafe session b client found h =
    let p = is_session session in
    record {
      live =
          All-map _ _ (delete p b.clients)
            (λ c both. is_open-shut c.1 client.1 b.channels (ground arith) ∙ both.1)
            (All-both _ _ (delete p b.clients) (NotIn-found p b.clients client found h.apart)
              (All-delete _ _ p b.clients (λ c _ live. live) h.live));
      apart = IsApart-delete p b.clients h.apart;
      made_before = All-delete _ _ p b.clients (λ c _ below. below) h.made_before;
      channels_before =
          All-update _ _ (is_channel client.1) shut b.channels (λ c _ below. below)
            (λ c _ below. below) h.channels_before;
      bounded =
          All-update _ _ (is_channel client.1) shut b.channels (λ c _ le. le) (λ c _ le. le)
            h.bounded;
    }

unsubscribe-Succeeds :
    (session : String) (b : Broadcaster) → IsSafe b → Succeeds (unsubscribe session b)
unfolding unsubscribe
unsubscribe-Succeeds session b h = elim (Option-cases (find (is_session session) b.clients)) [
  | inl missing ↦ rw missing (b, refl, h)
  | inr (client, found) ↦
      let (live, _) = All-find _ (is_session session) b.clients client found h.live in
      rw (found, live)
        (
          forget session (record b { channels = update (is_channel client.1) shut b.channels }),
          refl,
          unsubscribe-IsSafe session b client found h,
        )
]

step-Succeeds : (op : Op) (b : Broadcaster) → IsSafe b → Succeeds (step op b)
unfolding step
step-Succeeds (subscribes session) b h = (subscribe session b, refl, subscribe-IsSafe session b h)
step-Succeeds (unsubscribes session) b h = unsubscribe-Succeeds session b h
step-Succeeds (broadcasts none) b h = (b, refl, h)
step-Succeeds (broadcasts (some msg)) b h = send_all-Succeeds msg b.clients b h.live h
step-Succeeds (receives id) b h = (receive id b, refl, receive-IsSafe id b h)

-- From a state in which each client has an open channel of its own and no channel is overfull, any
-- calls of the broadcaster and of its clients end without a panic, in such a state again.
pub run-Succeeds : (ops : List Op) (b : Broadcaster) → IsSafe b → Succeeds (run ops b)
unfolding run
run-Succeeds [] b h = (b, refl, h)
run-Succeeds (op ∷ ops) b h =
    let (c, done, safe) = step-Succeeds op b h in rw done (run-Succeeds ops c safe)
