-- ===== src/Bridge/Diagnostics/Reported.antt =====
-- internal/bridge/bridge.go and internal/events/jsonline.go: from the events of a bridge to the file.
use xbslink_ng.Base.{
  append-nil, append_assoc, appends, sizes, ℕ, suc, ◌+◌, ◌<◌, ◌≤◌, ◌≡◌, refl, sym, ap, ◌∙◌, subst,
  Bool, true, false, none, List, [], ◌∷◌, ◌++◌, arith, length, if_true, if_false, lt→ltb,
}
use xbslink_ng.Protocol.{Mac}
use xbslink_ng.Events.{
  EventType, event_state_changed, event_error, Data, state_changed_data, error_data, Envelope, Json,
  newline,
}
use xbslink_ng.Events.Lines.{bytes_of}
use xbslink_ng.Events.Async.{Writer, buffer_size, emit, Reach}
use xbslink_ng.Events.Order.{Emission, contents, contents-append}
use xbslink_ng.Events.Found.{IsTold, two_lines}
use xbslink_ng.Events.Close.{close_flushes}
use xbslink_ng.Bridge.{Bridge, Event, disconnected, state_changed, peer_lost, same_state, send_ping}
use xbslink_ng.Bridge.Ping.{tick, silent_peer}
use xbslink_ng.Bridge.Report.{state_string}
use xbslink_ng.Bridge.Diagnostics.{Texts, described, peer_text, lost_message}

module _ {F : Type 0} (texts : Texts F) where
  abbrev pub all_described : List Event → List (Emission F)
  all_described [] = []
  all_described (e ∷ es) = described texts e ∷ all_described es

  -- The calls of `Emit` for the events of a handler.
  unfoldable pub emit_all : ℕ → List Event → Writer F → Writer F
  emit_all now [] w = w
  emit_all now (e ∷ es) w = let (t, d) = described texts e in emit_all now es (emit now t d w)

  emitted :
      (now : ℕ) (t : EventType) (d : Data F) (w : Writer F)
      → length w.events < buffer_size
      → (emit now t d w).events
        ≡ w.events ++ (record { event_type = t; timestamp = now; data_of = d } ∷ [])
  unfolding emit
  emitted now t d w h = if_true _ _ (lt→ltb _ _ h)

  still_room :
      (now : ℕ) (t : EventType) (d : Data F) (w : Writer F) (n : ℕ)
      → length w.events + suc n ≤ buffer_size
      → length (emit now t d w).events + n ≤ buffer_size
  still_room now t d w n h = grind (sizes, h, ap length (emitted now t d w (omega (arith, h))))

  all_queued :
      (now : ℕ) (es : List Event) (w : Writer F)
      → length w.events + length es ≤ buffer_size
      → (contents (emit_all now es w).events ≡ contents w.events ++ all_described es)
        × ((emit_all now es w).finished ≡ w.finished)
        × ((emit_all now es w).closed ≡ w.closed)
        × ((emit_all now es w).inner.bytes ≡ w.inner.bytes)
  unfolding emit_all emit
  all_queued now [] w h = (sym (append-nil (contents w.events)), refl, refl, refl)
  all_queued now (e ∷ es) w h =
      let (t, d) = described texts e in
      let room =
        ap contents (emitted now t d w (omega (arith, h)))
        ∙ contents-append w.events (record { event_type = t; timestamp = now; data_of = d } ∷ []) in
      let (c, f, k, b) = all_queued now es (emit now t d w) (still_room now t d w (length es) h) in
      (c ∙ rw room (simp appends), f, k, b)

  -- The two events of a peer that is given up.
  abbrev pub error_emitted : Emission F
  error_emitted = (event_error, error_data (record { message = lost_message texts 3 }))

  abbrev pub disconnected_emitted : Emission F
  disconnected_emitted = (
    event_state_changed,
    state_changed_data (record { state = state_string disconnected; peer_addr = [] }),
  )

  -- A bridge that is not disconnected, with `done` open, no ping pending and no pong missed, whose peer
  -- never answers, at times above 0: the events of the fourth tick, emitted one after the other into a writer whose queue has
  -- room for two and whose goroutine still runs, are two lines in a row in the file once `Close`
  -- returns, directly behind what is written for the events that waited: the line of the error with 3
  -- missed pongs, then the line of the change of state, each with some time. The encoding gives these
  -- two events a text at any time.
  pub lost_peer_reported :
      (json : Json F) (mac : Mac) (b : Bridge) (t1 t2 t3 t4 now : ℕ) (w1 w2 w3 w4 : Bool)
      (error_line state_line : ℕ → List ℕ)
      → IsTold json error_emitted error_line
      → IsTold json disconnected_emitted state_line
      → b.pending_ping ≡ 0
      → b.missed_pongs ≡ 0
      → b.done_once ≡ false
      → same_state b.state disconnected ≡ false
      → 0 < t1
      → 0 < t2
      → 0 < t3
      → (u w : Writer F) → length u.events + 2 ≤ buffer_size
      → u.finished ≡ false
      → u.closed ≡ false
      → Reach json
          (emit_all now
            (send_ping mac t4 w4 (tick mac t3 w3 (tick mac t2 w2 (tick mac t1 w1 b)))).2
            u)
          w
      → w.closed ≡ true
      → (before : List (Envelope F)) × (at : ℕ) × (at' : ℕ) × (later : List ℕ) × (contents before
          ≡ contents u.events)
        × (w.inner.bytes
            ≡ u.inner.bytes
              ++ (bytes_of json before
                  ++ (error_line at ++ newline ∷ (state_line at' ++ newline ∷ later))))
  unfolding described peer_text
  lost_peer_reported json mac b t1 t2 t3 t4 now w1 w2 w3 w4 error_line state_line he hs p m o s h1
        h2 h3 u w room f c r k =
      let (_, _, _, _, _, gone) = silent_peer mac b t1 t2 t3 t4 w1 w2 w3 w4 p m o h1 h2 h3 in
      let said = gone ∙ ap (◌∷◌ (peer_lost 3)) (if_false _ _ s) in
      let (q, f', c', y) =
        all_queued now (peer_lost 3 ∷ state_changed disconnected none ∷ []) u room in
      let (es, rest, e, l) =
        close_flushes json _ w (subst (λ (l : List Event). Reach json (emit_all now l u) w) said r)
          (f' ∙ f) (c' ∙ c) k in
      let (before, at, at', later, same, lines) =
        two_lines json es (contents u.events) error_emitted disconnected_emitted rest error_line
          state_line he hs
          (l
            ∙ ap (λ (x : List (Emission F)). x ++ rest) q
            ∙ append_assoc (contents u.events) _ rest) in
      (
        before,
        at,
        at',
        later,
        same,
        e
            ∙ ap (λ (x : List ℕ). x ++ bytes_of json es) y
            ∙ ap (λ (x : List ℕ). u.inner.bytes ++ x) lines,
      )
