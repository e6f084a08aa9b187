-- ===== src/Rendezvous/Punch/Online.antt =====
-- When a peer counts as offline.
use kd_desk_tc.Prelude.{◌-◌, ◌^◌, ◌≤◌, ◌<◌, ◌≡◌, ◌↔◌, arith, true, false}
use kd_desk_tc.World.{World}
use kd_desk_tc.Peer.{Peer}
use kd_desk_tc.Rendezvous.Punch.{is_offline}

-- A peer whose last registration is less than 2^31 milliseconds ago is offline exactly from 30
-- seconds on.
is_offline_lem :
    (w : World) (peer : Peer)
    → w.now - peer.last_reg_time < 2 ^ 31
    → (is_offline w peer ≡ true) ↔ (30000 ≤ w.now - peer.last_reg_time)
unfolding is_offline
is_offline_lem w peer h = (λ e. ground arith, λ e. ground arith)

-- A peer whose last registration is from 2^31 up to 2^32 milliseconds ago counts as online.
is_offline_wraps :
    (w : World) (peer : Peer)
    → 2 ^ 31 ≤ w.now - peer.last_reg_time
    → w.now - peer.last_reg_time < 2 ^ 32
    → is_offline w peer ≡ false
unfolding is_offline
is_offline_wraps w peer h k = ground arith
