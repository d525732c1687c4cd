-- ===== src/Bridge/Ping.antt =====
-- The latency probe and the detection of a silent peer.
use xbslink_ng.Base.{
  ℕ, ◌+◌, ◌<◌, ◌≡◌, ◌≢◌, refl, sym, Bool, false, ◌⊎◌, inl, inr, none, [], ◌∷◌, arith, sub64, gt64,
  if◌then◌else◌,
}
use mathlib.Core.Path.{subst}
use native.Mathlib.Decide.{ℕ_discrete}
use xbslink_ng.Protocol.{Mac}
use xbslink_ng.Bridge.Rtt.{Float64, add_rtt_sample, set_last_rtt, check_rtt_spike}
use xbslink_ng.Bridge.{
  disconnected, state_changed, latency, peer_lost, Bridge, Effect, same_state, rtt_alert_threshold,
  take_pong, handle_pong, send_ping,
}

abbrev pub tick : Mac → ℕ → Bool → Bridge → Bridge
tick mac now write_ok b = (send_ping mac now write_ok b).0

-- From a bridge with no ping pending and no pong missed, a peer that never answers is given up at
-- the fourth tick and not before: three ticks leave the state and the channel `done` alone, the
-- fourth disconnects, closes `done` (once) and emits the error with 3 missed pongs.
pub silent_peer :
    (mac : Mac) (b : Bridge) (t1 t2 t3 t4 : ℕ) (w1 w2 w3 w4 : Bool)
    → b.pending_ping ≡ 0
    → b.missed_pongs ≡ 0
    → b.done_once ≡ false
    → 0 < t1
    → 0 < t2
    → 0 < t3
    → let b3 = tick mac t3 w3 (tick mac t2 w2 (tick mac t1 w1 b)) in
      let gone = send_ping mac t4 w4 b3 in
      (b3.state ≡ b.state)
      × (b3.done_closes ≡ b.done_closes)
      × (gone.0.state ≡ disconnected)
      × (gone.0.done_closes ≡ b.done_closes + 1)
      × (gone.1 ≡ [])
      × (gone.2
          ≡ peer_lost 3
            ∷ (if same_state b.state disconnected
                then []
                else state_changed disconnected none ∷ []))
unfolding send_ping
silent_peer mac b t1 t2 t3 t4 w1 w2 w3 w4 p m o h1 h2 h3 = ground arith

pong_ignored :
    (f : Float64) (now : ℕ) (b : Bridge) (timestamp : ℕ)
    → (b.pending_ping ≡ 0) ⊎ (timestamp ≢ b.pending_ping)
    → handle_pong f now b timestamp ≡ (b, [], [])
unfolding handle_pong
pong_ignored f now b timestamp h = ground arith

pub pong_taken :
    (f : Float64) (now : ℕ) (b : Bridge) (timestamp : ℕ)
    → b.pending_ping ≢ 0
    → timestamp ≡ b.pending_ping
    → handle_pong f now b timestamp ≡ take_pong f now b timestamp
unfolding handle_pong
pong_taken f now b timestamp h e = ground arith

-- What the echo of the pending ping does to the bridge.
abbrev pub Measured : Float64 → ℕ → Bridge → ℕ → Effect → Type 0
Measured f now b timestamp (b', out, events) =
    (b'.pending_ping ≡ 0)
    × (b'.missed_pongs ≡ 0)
    × (b'.stats.rtt_current ≡ sub64 now timestamp)
    × (b'.stats.last_rtt ≡ b.stats.rtt_current)
    × (b'.state ≡ b.state)
    × (b'.transport ≡ b.transport)
    × (out ≡ [])
    × (events
        ≡ latency (sub64 now timestamp) (check_rtt_spike f b'.stats).0
            (gt64 (sub64 now timestamp) rtt_alert_threshold)
          ∷ [])

take_pong-Measured :
    (f : Float64) (now : ℕ) (b : Bridge) (timestamp : ℕ)
    → Measured f now b timestamp (take_pong f now b timestamp)
unfolding take_pong add_rtt_sample set_last_rtt
take_pong-Measured f now b timestamp = (refl, refl, refl, refl, refl, refl, refl, refl)

-- A PONG that echoes the pending ping clears it and the missed pongs, its RTT becomes the current
-- one, the RTT before becomes the last one, and the RTT is emitted with the spike test on the new
-- statistics and the threshold test; any other PONG changes nothing and emits nothing.
pub handle_pong_cases :
    (f : Float64) (now : ℕ) (b : Bridge) (timestamp : ℕ)
    → ((b.pending_ping ≢ 0)
        × (timestamp ≡ b.pending_ping)
        × Measured f now b timestamp (handle_pong f now b timestamp))
      ⊎ (((b.pending_ping ≡ 0) ⊎ (timestamp ≢ b.pending_ping))
          × (handle_pong f now b timestamp ≡ (b, [], [])))
handle_pong_cases f now b timestamp = elim (ℕ_discrete b.pending_ping 0) [
  | yes z ↦ inr (inl z, pong_ignored f now b timestamp (inl z))
  | no pending ↦ elim (ℕ_discrete timestamp b.pending_ping) [
    | yes e ↦ inl (
      pending,
      e,
      subst (Measured f now b timestamp) (sym (pong_taken f now b timestamp pending e))
          (take_pong-Measured f now b timestamp),
    )
    | no other ↦ inr (inr other, pong_ignored f now b timestamp (inr other))
  ]
]

-- A peer that answers every ping is never given up: a tick and the answer to it leave no ping
-- pending, no pong missed, the state as it was and the channel `done` alone.
pub answered_ping :
    (mac : Mac) (f : Float64) (b : Bridge) (sent now : ℕ) (write_ok : Bool)
    → b.pending_ping ≡ 0
    → 0 < sent
    → let b' = (handle_pong f now (tick mac sent write_ok b) sent).0 in
      (b'.pending_ping ≡ 0)
      × (b'.missed_pongs ≡ 0)
      × (b'.state ≡ b.state)
      × (b'.done_closes ≡ b.done_closes)
      × (b'.stats.rtt_current ≡ sub64 now sent)
unfolding send_ping handle_pong take_pong add_rtt_sample set_last_rtt
answered_ping mac f b sent now write_ok p h = ground arith
