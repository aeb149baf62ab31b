-- ===== src/State/Broadcaster.antt =====
-- daemon/state/broadcaster.go: publishing events to subscribers. A channel is a bounded queue; a send on
-- a closed channel and a second close panic in Go, which is `none` here. Every operation holds the
-- broadcaster's lock, so that a run is a sequence of operations; a reader takes from its channel
-- between any two.
pub mod Fed
pub mod Delivery
use disc_echo_dd.Common.{
  ℕ, zero, suc, Bool, true, false, List, [], ◌∷◌, ◌++◌, Option, none, some, if◌then◌else◌, ltb,
  ◌==◌, ◌>>=◌, length,
}
use disc_echo_dd.State.Events.{Event}

-- A subscriber's channel. `subscribed` is its membership in `subs`, `cancelled` the state of the
-- cancel function's Once, `taken` what its reader has received.
pub record Channel : Type 0 where
  pub id : ℕ
  pub capacity : ℕ
  pub buffer : List Event
  pub taken : List Event
  pub is_closed : Bool
  pub subscribed : Bool
  pub cancelled : Bool

pub record Broadcaster : Type 0 where
  pub channels : List Channel
  pub closed : Bool

-- close(ch)
unfoldable pub close : Channel → Option Channel
close c = if c.is_closed then none else some (record c { is_closed = true })

-- delete(b.subs, ch); close(ch)
unfoldable pub drop : Channel → Option Channel
unfolding close
drop c = close (record c { subscribed = false })

-- ch <- ev, where there is room
unfoldable pub send : Event → Channel → Option Channel
send e c = if c.is_closed then none else some (record c { buffer = c.buffer ++ e ∷ [] })

unfoldable pub publish_to : Event → Channel → Option Channel
unfolding send drop
publish_to e c =
    if c.subscribed then if ltb (length c.buffer) c.capacity then send e c else drop c else some c

unfoldable pub cancel_channel : Channel → Option Channel
unfolding drop
cancel_channel c =
    if c.cancelled
    then some c
    else let d = record c { cancelled = true } in if d.subscribed then drop d else some d

unfoldable pub close_channel : Channel → Option Channel
unfolding drop
close_channel c = if c.subscribed then drop c else some c

unfoldable pub take_from : List Event → Channel → Channel
take_from [] c = c
take_from (e ∷ rest) c = record c { buffer = rest; taken = c.taken ++ e ∷ [] }

-- <-ch, where there is an event
unfoldable pub take : Channel → Channel
unfolding take_from
take c = take_from c.buffer c

-- A panic in one channel's turn ends the operation.
unfoldable pub each_channel : (Channel → Option Channel) → List Channel → Option (List Channel)
each_channel f [] = some []
each_channel f (c ∷ cs) = do d ← f c; ds ← each_channel f cs; some (d ∷ ds)

abbrev pub only : ℕ → (Channel → Option Channel) → Channel → Option Channel
only id f c = if c.id == id then f c else some c

pub data BroadcastOp : Type 0 where
  subscribe : ℕ → ℕ → BroadcastOp
  publish : Event → BroadcastOp
  cancel : ℕ → BroadcastOp
  receive : ℕ → BroadcastOp
  shutdown : BroadcastOp

abbrev pub new_channel : ℕ → ℕ → Bool → Channel
new_channel id buffer closed = record {
  id = id;
  capacity = if ltb buffer 1 then 1 else buffer;
  buffer = [];
  taken = [];
  is_closed = closed;
  subscribed = if closed then false else true;
  cancelled = closed;
}

abbrev pub with_channels : Broadcaster → Option (List Channel) → Option Broadcaster
with_channels b none = none
with_channels b (some cs) = some (record b { channels = cs })

-- The cancel function of a channel that was subscribed after the shutdown does nothing.
unfoldable pub step : BroadcastOp → Broadcaster → Option Broadcaster
unfolding each_channel publish_to cancel_channel close_channel take
step (subscribe id buffer) b =
    some (record b { channels = new_channel id buffer b.closed ∷ b.channels })
step (publish e) b =
    if b.closed then some b else with_channels b (each_channel (publish_to e) b.channels)
step (cancel id) b = with_channels b (each_channel (only id cancel_channel) b.channels)
step (receive id) b = with_channels b (each_channel (only id (λ c. some (take c))) b.channels)
step shutdown b =
    if b.closed
    then some b
    else with_channels (record b { closed = true }) (each_channel close_channel b.channels)

unfoldable pub run : List BroadcastOp → Broadcaster → Option Broadcaster
unfolding step
run [] b = some b
run (op ∷ ops) b = do c ← step op b; run ops c

unfoldable pub new_broadcaster : Broadcaster
new_broadcaster = record { channels = []; closed = false }
