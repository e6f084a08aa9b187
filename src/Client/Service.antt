-- ===== src/Client/Service.antt =====
-- KdDeskTC_Client/src/server/service.rs: a service that sends what it captures to the connections
-- that subscribe to it, and `ConnInner` of server/connection.rs, which is such a subscriber. Each
-- function that takes or returns a service stands for one hold of its lock. What a subscriber is
-- sent goes into a queue of its connection, and a function that sends returns what it put into
-- which queue.
pub mod Queues
pub mod Apart
pub mod Delivery
pub mod Backoff
use kd_desk_tc.Prelude.{
  ℕ, Bool, true, false, not, ◌&&◌, ◌||◌, Option, none, some, List, [], ◌∷◌, ◌++◌, length, ltb,
  if◌then◌else◌, ◌==◌, nat_eq,
}
use kd_desk_tc.Proto.{Text}
use kd_desk_tc.Client.Proto.{Message}
use kd_desk_tc.HashMap
use kd_desk_tc.HashMap.{HashMap}

-- The sending end of a queue, by the queue's name.
abbrev pub Sender : Type 0
Sender = ℕ

abbrev pub Sent : Type 0
Sent = List (Sender × Message)

pub record ConnInner : Type 0 where
  pub id : ℕ
  pub tx : Option Sender
  pub tx_video : Option Sender

unfoldable pub to_queue : Option Sender → Message → Sent
to_queue none msg = []
to_queue (some tx) msg = (tx, msg) ∷ []

unfoldable pub is_video_frame : Message → Bool
is_video_frame (Message.video_frame f) = true
is_video_frame msg = false

-- `Subscriber::send`
unfoldable pub send : ConnInner → Message → Sent
send s msg = if is_video_frame msg then to_queue s.tx_video msg else to_queue s.tx msg

abbrev pub Subscribers : Type 0
Subscribers = HashMap ℕ ConnInner

pub record ServiceInner : Type 0 where
  pub name : Text
  pub subscribes : Subscribers
  pub new_subscribes : Subscribers
  pub active : Bool
  pub need_snapshot : Bool

unfoldable pub new : Text → Bool → ServiceInner
new name need_snapshot = record {
  name = name;
  subscribes = [];
  new_subscribes = [];
  active = true;
  need_snapshot = need_snapshot;
}

unfoldable pub send_all : Subscribers → Message → Sent
send_all [] msg = []
send_all ((i, s) ∷ m) msg = send s msg ++ send_all m msg

unfoldable pub send_new_subscribes : ServiceInner → Message → Sent
send_new_subscribes sp msg = send_all sp.new_subscribes msg

unfoldable pub drain_into : Subscribers → Subscribers → Subscribers
drain_into [] m = m
drain_into ((i, s) ∷ new) m = drain_into new (HashMap.insert m s.id s)

unfoldable pub swap_new_subscribes : ServiceInner → ServiceInner
swap_new_subscribes sp = record sp {
  subscribes = drain_into sp.new_subscribes sp.subscribes;
  new_subscribes = [];
}

unfoldable pub has_subscribes : ServiceInner → Bool
has_subscribes sp = ltb 0 (length sp.subscribes) || ltb 0 (length sp.new_subscribes)

unfoldable pub is_subed : ServiceInner → ℕ → Bool
is_subed sp id = HashMap.contains_key sp.subscribes id

unfoldable pub on_subscribe : ServiceInner → ConnInner → ServiceInner
on_subscribe sp sub =
    if HashMap.contains_key sp.subscribes sub.id
    then sp
    else if sp.need_snapshot
    then record sp { new_subscribes = HashMap.insert sp.new_subscribes sub.id sub }
    else record sp { subscribes = HashMap.insert sp.subscribes sub.id sub }

unfoldable pub on_unsubscribe : ServiceInner → ℕ → ServiceInner
on_unsubscribe sp id =
    if HashMap.contains_key sp.subscribes id
    then record sp { subscribes = HashMap.remove sp.subscribes id }
    else record sp { new_subscribes = HashMap.remove sp.new_subscribes id }

-- `join`, which then waits for the service's thread.
unfoldable pub join : ServiceInner → ServiceInner
join sp = record sp { active = false }

unfoldable pub ok : ServiceInner → Bool
ok sp = sp.active && has_subscribes sp

unfoldable pub send_to : ServiceInner → Message → ℕ → Sent
send_to sp msg id = elim (HashMap.get sp.subscribes id) [ none ↦ [] | some s ↦ send s msg ]

unfoldable pub send_shared : ServiceInner → Message → Sent
send_shared sp msg = send_all sp.subscribes msg

-- `send_video_frame_shared` returns the ids that it sent to as well.
unfoldable pub conn_ids : Subscribers → List ℕ
conn_ids [] = []
conn_ids ((i, s) ∷ m) = s.id ∷ conn_ids m

unfoldable pub send_video_frame_shared : ServiceInner → Message → Sent × List ℕ
send_video_frame_shared sp msg = (send_all sp.subscribes msg, conn_ids sp.subscribes)

unfoldable pub send_all_without : Subscribers → Message → ℕ → Sent
send_all_without [] msg sub = []
send_all_without ((i, s) ∷ m) msg sub =
    let rest = send_all_without m msg sub in if sub == s.id then rest else send s msg ++ rest

unfoldable pub send_without : ServiceInner → Message → ℕ → Sent
send_without sp msg sub = send_all_without sp.subscribes msg sub

-- What `snapshot` does once it has seen that somebody waits. The callback sends some messages through
-- the `ServiceSwap` that it is given, each under a hold of its own, and succeeds or fails; the swap
-- happens when the `ServiceSwap` is dropped, either way. Others may hold the lock in between.
pub data Hold : Type 0 where
  send_new : Message → Hold
  swap : Hold

unfoldable pub hold : ServiceInner → Hold → ServiceInner × Sent
hold sp (Hold.send_new msg) = (sp, send_new_subscribes sp msg)
hold sp Hold.swap = (swap_new_subscribes sp, [])

unfoldable pub callback : List Message → List Hold
callback [] = Hold.swap ∷ []
callback (msg ∷ msgs) = Hold.send_new msg ∷ callback msgs

-- The first hold of `snapshot`, which looks whether somebody waits, and what it decides to do.
unfoldable pub snapshot : ServiceInner → List Message → List Hold
snapshot sp msgs = if ltb 0 (length sp.new_subscribes) then callback msgs else []
