-- ===== src/Events/Close.antt =====
-- What `Close` waits for.
use xbslink_ng.Base.{◌+◌, ◌≡◌, refl, true, false, List, [], ◌∷◌, ◌++◌, arith, length}
use xbslink_ng.Events.{Envelope, Json}
use xbslink_ng.Events.Lines.{bytes_of}
use xbslink_ng.Events.Async.{Writer, write_event, writing, finishing, returning, Reach, here, next}
use xbslink_ng.Events.Order.{Emission, contents, turns, reach-Carries}

module _ {F : Type 0} (json : Json F) where
  -- When `Close` returns, all events that waited when it was called, or at any time before, have been
  -- written, in their order and before any others: from a writer whose goroutine still runs to the
  -- return of `Close`, what is written are the events queued at first, and then some more.
  pub close_flushes :
      (u w : Writer F)
      → Reach json u w
      → u.finished ≡ false
      → u.closed ≡ false
      → w.closed ≡ true
      → (es : List (Envelope F)) × (rest : List (Emission F)) × (w.inner.bytes
          ≡ u.inner.bytes ++ bytes_of json es)
        × (contents es ≡ contents u.events ++ rest)
  close_flushes u w r live open_yet c =
      let h = reach-Carries json r live open_yet in
      let (rest, e) = h.flushed (h.ended c) in (h.es, rest, h.bytes, e)

  drained :
      (w : Writer F) (q : List (Envelope F)) (u : Writer F) (r : Reach json w u)
      → u.events ≡ q
      → u.done ≡ true
      → u.finished ≡ false
      → u.closed ≡ false
      → (v : Writer F) × (r' : Reach json w v) × (v.closed ≡ true)
        × (v.events ≡ [])
        × (turns r' ≡ turns r + length q + 2)
  unfolding write_event
  drained w [] u r e d live open_yet =
      (_, next (next r (finishing d live e)) (returning refl open_yet), refl, e, omega arith)
  drained w (env ∷ rest) u r e d live open_yet =
      let (v, r', c, q, n) =
        drained w rest (write_event json 0 env rest u) (next r (writing 0 env rest live e)) refl d
          live open_yet in
      (v, r', c, q, omega (arith, n))

  -- `Close` returns: once it has been called, and as long as nothing more is emitted, a series of
  -- turns of the goroutine leads to its return, one for each event that waits and two more.
  pub close_returns :
      (w : Writer F)
      → w.done ≡ true
      → w.finished ≡ false
      → w.closed ≡ false
      → (v : Writer F) × (r : Reach json w v) × (v.closed ≡ true)
        × (v.events ≡ [])
        × (turns r ≡ length w.events + 2)
  close_returns w d live open_yet =
      let (v, r, c, q, n) = drained w w.events w here refl d live open_yet in
      (v, r, c, q, omega (arith, n))
