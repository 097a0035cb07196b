-- ===== src/Broadcaster.antt =====
-- internal/events/broadcaster.go: the clients of the event stream, each with a Go channel of 64
-- places. `none` is a panic: a send on a channel that is closed, or a second close of it.
pub mod Safety
pub mod Delivery
mod Tests
use a2a_platform_go.Prelude.{
  ℕ, ◌+◌, String, Bool, true, false, ◌&&◌, not, Option, none, some, List, [], ◌∷◌, ◌++◌, ◌==◌, ◌=?◌,
  ltb, if◌then◌else◌, is_some, find, update, delete, length,
}

-- A channel, which whoever subscribed keeps after the broadcaster has let go of it.
pub record Channel : Type 0 where
  pub id : ℕ
  pub queue : List String
  pub closed : Bool

-- `clients` is the map from sessions to channels; `made` counts the calls of `make`.
pub record Broadcaster : Type 0 where
  pub clients : List (String × ℕ)
  pub channels : List Channel
  pub made : ℕ

unfoldable pub new : Broadcaster
new = record { clients = []; channels = []; made = 0 }

abbrev pub capacity : ℕ
capacity = 64

abbrev pub is_session : String → String × ℕ → Bool
is_session session client = client.0 == session

abbrev pub is_channel : ℕ → Channel → Bool
is_channel id c = id =? c.id

abbrev pub opened : Option Channel → Bool
opened none = false
opened (some c) = not c.closed

-- The channel is there and not closed.
unfoldable pub is_open : ℕ → List Channel → Bool
unfolding find
is_open id channels = opened (find (is_channel id) channels)

-- Subscribe: the channel that a session had before is dropped from the map, and stays open.
unfoldable pub subscribe : String → Broadcaster → Broadcaster
unfolding delete
subscribe session b = record {
  clients = (session, b.made) ∷ delete (is_session session) b.clients;
  channels = b.channels ++ record { id = b.made; queue = []; closed = false } ∷ [];
  made = b.made + 1;
}

abbrev pub shut : Channel → Channel
shut c = record c { closed = true }

unfoldable pub close_channel : ℕ → Broadcaster → Option Broadcaster
unfolding is_open update
close_channel id b =
    if is_open id b.channels
    then some (record b { channels = update (is_channel id) shut b.channels })
    else none

abbrev pub forget : String → Broadcaster → Broadcaster
forget session b = record b { clients = delete (is_session session) b.clients }

abbrev pub forgotten : String → Option Broadcaster → Option Broadcaster
forgotten session none = none
forgotten session (some b) = some (forget session b)

abbrev pub close_found : String → Broadcaster → Option (String × ℕ) → Option Broadcaster
close_found session b none = some b
close_found session b (some client) = forgotten session (close_channel client.1 b)

-- Unsubscribe
unfoldable pub unsubscribe : String → Broadcaster → Option Broadcaster
unfolding close_channel find delete
unsubscribe session b = close_found session b (find (is_session session) b.clients)

-- A send that does not block: a full channel drops the event.
abbrev pub put : String → Channel → Channel
put msg c = if ltb (length c.queue) capacity then record c { queue = c.queue ++ msg ∷ [] } else c

unfoldable pub send : String → ℕ → Broadcaster → Option Broadcaster
unfolding is_open update
send msg id b =
    if is_open id b.channels
    then some (record b { channels = update (is_channel id) (put msg) b.channels })
    else none

abbrev pub and_then : Option Broadcaster → (Broadcaster → Option Broadcaster) → Option Broadcaster
and_then none f = none
and_then (some b) f = f b

-- The loop of Broadcast over the clients, in the order in which the map yields them.
unfoldable pub send_all : String → List (String × ℕ) → Broadcaster → Option Broadcaster
unfolding send
send_all msg [] b = some b
send_all msg (client ∷ clients) b = and_then (send msg client.1 b) (send_all msg clients)

-- Broadcast of a message; `none` stands for data that encoding/json refuses.
unfoldable pub broadcast : Option String → Broadcaster → Option Broadcaster
unfolding send_all
broadcast none b = some b
broadcast (some msg) b = send_all msg b.clients b

abbrev pub pop_queue : List String → List String
pop_queue [] = []
pop_queue (msg ∷ queue) = queue

-- The handler of a client takes the next event from its channel.
unfoldable pub receive : ℕ → Broadcaster → Broadcaster
unfolding update
receive id b = record b {
  channels = update (is_channel id) (λ c. record c { queue = pop_queue c.queue }) b.channels;
}

pub data Op : Type 0 where
  subscribes unsubscribes : String → Op
  broadcasts : Option String → Op
  receives : ℕ → Op

unfoldable pub step : Op → Broadcaster → Option Broadcaster
unfolding subscribe unsubscribe broadcast receive
step (subscribes session) b = some (subscribe session b)
step (unsubscribes session) b = unsubscribe session b
step (broadcasts msg) b = broadcast msg b
step (receives id) b = some (receive id b)

-- Calls under the lock, one after the other.
unfoldable pub run : List Op → Broadcaster → Option Broadcaster
unfolding step
run [] b = some b
run (op ∷ ops) b = and_then (step op b) (run ops)
