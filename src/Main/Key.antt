-- ===== src/Main/Key.antt =====
-- cmd/xbslink-ng/main.go: the key of the flag reaches every connection.
use xbslink_ng.Base.{
  ℕ, ◌+◌, ◌≡◌, refl, ap, ◌∙◌, ◌&&◌, Bool, true, false, not, List, [], ◌∷◌, arith, All, All-map, ltb,
  length, if◌then◌else◌,
}
use xbslink_ng.Bridge.{Bridge}
use xbslink_ng.Bridge.Rtt.{Float64}
use xbslink_ng.Bridge.Begin.{begin_run}
use xbslink_ng.Bridge.Run.{System, Reach, started}
use xbslink_ng.Bridge.Run.Key.{run-KeepsKey}
use xbslink_ng.Protocol.{Mac, Codec, new_codec, reset_recv_nonce}
use xbslink_ng.Protocol.Key.{SameKey, trans-SameKey}
use xbslink_ng.Transport.{Round, Attempt, Mode, is_listen}
use xbslink_ng.Config.{Config, Disk, load}
use xbslink_ng.Logging.{Level}
use xbslink_ng.Main.{
  Connection, Outcome, finished, peer_lost, broken, Trace, after_run, reconnect_loop,
}
use xbslink_ng.Main.Setup.{
  Choice, Emitter, or_empty, World, Options, ready, Ready, run_setup, with_choice, discover_first,
  start_with,
}
use xbslink_ng.Main.Setup.Holds.{Holds, at_value, Holds-skip, if-Holds, from_ready}

-- A connection whose run keeps the key and the mode of the codec.
abbrev IsFaithful : Connection → Type 0
IsFaithful k = (c : Codec) → SameKey c (k.run c).0

reset-SameKey : (c d : Codec) → SameKey c d → SameKey c (reset_recv_nonce d)
unfolding reset_recv_nonce
reset-SameKey c d h = h

if-All :
    (c : Codec) (b : Bool) (x y : Trace)
    → All (SameKey c) x.0
    → All (SameKey c) y.0
    → All (SameKey c) (if b then x else y).0
if-All c true x y p q = p
if-All c false x y p q = q

after_run-SameKey :
    (mode : Mode) (n : ℕ) (k : Connection) (c : Codec) (x : Codec × Outcome) (rest : Codec → Trace)
    → SameKey c x.0
    → ((d : Codec) → SameKey c d → All (SameKey c) (rest d).0)
    → All (SameKey c) (after_run mode n k x rest).0
unfolding after_run
after_run-SameKey mode n k c (d, finished) rest h r = ground arith
after_run-SameKey mode n k c (d, broken) rest h r = ground arith
after_run-SameKey mode n k c (d, peer_lost) rest h r = if-All c k.cancelled_after _ _ tt (
    if-All c (is_listen mode) _ _ (r (reset_recv_nonce d) (reset-SameKey c d h))
      (if-All c k.cancelled_in_delay _ _ tt (r (reset_recv_nonce d) (reset-SameKey c d h))))

loop-SameKey :
    (mode : Mode) (c d : Codec) (n : ℕ) (ks : List Connection)
    → All IsFaithful ks
    → SameKey c d
    → All (SameKey c) (reconnect_loop mode d n ks).0
unfolding reconnect_loop
loop-SameKey mode c d n [] h same = tt
loop-SameKey mode c d n (k ∷ ks) h same = if-All c k.cancelled_before _ _ tt (
    if-All c (not k.transport_ok) _ _ tt (
      if-All c (not k.bridge_ok) _ _ tt (
        same,
        after_run-SameKey mode n k c (k.run d) (λ c'. reconnect_loop mode c' (n + 1) ks)
            (trans-SameKey c d (k.run d).0 same (h.0 d))
            (λ d' same'. loop-SameKey mode c d' (n + 1) ks h.1 same'),
      )))

discover_first-codec :
    (w : World) (wanted : List ℕ) (r : Ready)
    → Holds (λ (s : Ready). s.codec ≡ r.codec) (discover_first w wanted r)
unfolding discover_first
discover_first-codec w wanted r = Holds-skip _ _ (λ mac. Holds-skip _ _ (λ c. at_value _ refl))

with_choice-codec :
    (w : World) (o : Options) (level : Level) (emitter : Emitter) (cfg : Config) (disk : Disk)
    (c : Choice)
    → Holds (λ (r : Ready). r.codec ≡ new_codec o.key) (with_choice w o level emitter cfg disk c)
unfolding with_choice
with_choice-codec w o level emitter cfg disk (mac, needs) = Holds-skip _ _ (λ device.
    Holds-skip _ _ (λ c.
      if-Holds _ _ (needs && not (is_listen o.mode))
        (discover_first-codec w o.if_name (start_with o level emitter cfg disk (mac, needs) c))
        (at_value _ refl)))

run_setup-codec :
    (w : World) (o : Options) (disk : Disk)
    → Holds (λ (r : Ready). r.codec ≡ new_codec o.key) (run_setup w o disk)
unfolding run_setup
run_setup-codec w o disk = Holds-skip _ _ (λ level. Holds-skip _ _ (λ emitter.
    Holds-skip _ _ (λ checked. Holds-skip _ _ (λ choice.
      with_choice-codec w o level emitter (or_empty (load w.os w.json disk)) disk choice))))

-- The key of the flag, and secure mode if there is one.
abbrev pub IsUnder : List ℕ → Codec → Type 0
IsUnder key c = (c.key ≡ key) × (c.secure_mode ≡ ltb 0 (length key))

-- A connection whose run is one of a bridge on a transport that has the codec: `Run` connects, and then
-- its loops take their turns up to some state, whose codec is the one that is left.
abbrev pub IsBridgeRun : Mac → Float64 → Connection → Type 0
IsBridgeRun mac f k =
    (c : Codec)
    → (b : Bridge) × (rounds : List Round) × (attempts : List Attempt) × (cancelled : Bool)
      × (stats : Bool) × (s : System) × Reach mac f
          (started (begin_run mac cancelled b rounds attempts).0 stats) s
      × (b.transport.codec ≡ c)
      × ((k.run c).0 ≡ s.bridge.transport.codec)

bridge_run-IsFaithful :
    (mac : Mac) (f : Float64) (k : Connection) → IsBridgeRun mac f k → IsFaithful k
bridge_run-IsFaithful mac f k h c =
    let (b, rounds, attempts, cancelled, stats, s, reach, first, last) = h c in
    let kept = run-KeepsKey mac f cancelled stats b rounds attempts s reach in
    (
      ap (λ (d : Codec). d.key) last ∙ kept.0 ∙ ap (λ (d : Codec). d.key) first,
      ap (λ (d : Codec). d.secure_mode) last ∙ kept.1 ∙ ap (λ (d : Codec). d.secure_mode) first,
    )

-- When the set-up gets to the loop, every connection that the loop makes, however often the peer is
-- lost, starts with a codec under the key of the flag, in secure mode exactly if that key is not empty;
-- each run is a run of a bridge, whatever arrives at it.
pub run_setup-IsUnder :
    (w : World) (o : Options) (disk : Disk) (r : Ready) (mac : Mac) (f : Float64)
    (ks : List Connection)
    → run_setup w o disk ≡ ready r
    → All (IsBridgeRun mac f) ks
    → All (IsUnder o.key) (reconnect_loop o.mode r.codec 0 ks).0
unfolding new_codec
run_setup-IsUnder w o disk r mac f ks e h =
    let fresh = from_ready r (run_setup-codec w o disk) e in
    All-map
      (λ d same. (
        same.0 ∙ ap (λ (c : Codec). c.key) fresh,
        same.1 ∙ ap (λ (c : Codec). c.secure_mode) fresh,
      ))
      (reconnect_loop o.mode r.codec 0 ks).0
      (loop-SameKey o.mode r.codec r.codec 0 ks (All-map (bridge_run-IsFaithful mac f) ks h)
        (refl, refl))
