-- ===== src/Events/Order.antt =====
-- Which events are written, in which order, and what `Close` waits for.
use xbslink_ng.Base.{
  append-nil, append_assoc, appends, ℕ, ◌+◌, ◌≡◌, refl, sym, ap, ◌∙◌, subst, Bool, true, false, inl,
  inr, Bool-cases, ltb, List, [], ◌∷◌, ◌++◌, arith, length, IsPart, nothing, refl-IsPart,
  nil-IsPart, append-IsPart, trans-IsPart, prefix-IsPart, if_true, if_false,
}
use xbslink_ng.Events.{
  EventType, Data, Envelope, Json, JsonLineWriter, new_json_line_writer, emit_line,
  close_line_writer,
}
use xbslink_ng.Events.Lines.{lines_read, texts, lines_read-bytes_of, bytes_of, bytes_of-append}
use xbslink_ng.Events.Async.{
  Writer, new_writer, buffer_size, emit, write_event, Step, emitting, writing, closing, finishing,
  returning, Reach, here, next,
}

abbrev pub Emission : Type 0 → Type 0
Emission F = EventType × Data F

not_both : {b : Bool} → b ≡ false → b ≡ true → ⊥
not_both p q = cc

closed_bytes : (w : JsonLineWriter) → (close_line_writer w).bytes ≡ w.bytes
unfolding close_line_writer
closed_bytes w = ground arith

unchanged :
    {A : Type 0} (sent : List A) {more : List A} → IsPart more sent → IsPart more (sent ++ [])
unchanged sent {more} p = subst (IsPart more) (sym (append-nil sent)) p

module _ {F : Type 0} where
  abbrev pub contents : List (Envelope F) → List (Emission F)
  contents [] = []
  contents (e ∷ es) = (e.event_type, e.data_of) ∷ contents es

  pub contents-append :
      (xs ys : List (Envelope F)) → contents (xs ++ ys) ≡ contents xs ++ contents ys
  contents-append [] ys = refl
  contents-append (x ∷ xs) ys = ap (◌∷◌ (x.event_type, x.data_of)) (contents-append xs ys)

  module _ {json : Json F} where
    abbrev pub emitted_by : {w v : Writer F} → Step json w v → List (Emission F)
    emitted_by (emitting now t d) = (t, d) ∷ []
    emitted_by _ = []

    abbrev pub turns : {w v : Writer F} → Reach json w v → ℕ
    turns here = 0
    turns (next r st) = turns r + 1

    -- What the program emits in a series of steps.
    abbrev pub emitted : {w v : Writer F} → Reach json w v → List (Emission F)
    emitted here = []
    emitted (next r st) = emitted r ++ emitted_by st

  -- The event joins the queue, or is dropped.
  queued :
      (now : ℕ) (t : EventType) (d : Data F) (w : Writer F)
      → (more : List (Emission F)) × IsPart more ((t, d) ∷ [])
        × (contents (emit now t d w).events ≡ contents w.events ++ more)
  unfolding emit
  queued now t d w =
      let env : Envelope F = record { event_type = t; timestamp = now; data_of = d } in
      elim (Bool-cases (ltb (length w.events) buffer_size)) [
        | inl room ↦ (
          (t, d) ∷ [],
          refl-IsPart ((t, d) ∷ []),
          ap contents (if_true (w.events ++ (env ∷ [])) w.events room)
              ∙ contents-append w.events (env ∷ []),
        )
        | inr full ↦ (
          [],
          nil-IsPart ((t, d) ∷ []),
          ap contents (if_false (w.events ++ (env ∷ [])) w.events full)
              ∙ sym (append-nil (contents w.events)),
        )
      ]

  module _ (json : Json F) where
    -- Since the writer was `u`: the envelopes `es` have been written, and with those that wait they are
    -- what waited then and `more`.
    pub record Carries (u w : Writer F) (sent : List (Emission F)) : Type 0 where
      pub es : List (Envelope F)
      pub more : List (Emission F)
      pub bytes : w.inner.bytes ≡ u.inner.bytes ++ bytes_of json es
      pub order : contents es ++ contents w.events ≡ contents u.events ++ more
      pub part : IsPart more sent
      pub flushed :
          w.finished ≡ true → (rest : List (Emission F)) × (contents es ≡ contents u.events ++ rest)
      pub ended : w.closed ≡ true → w.finished ≡ true

    step-Carries :
        (u : Writer F) (sent : List (Emission F)) {w v : Writer F} (st : Step json w v)
        → Carries u w sent
        → Carries u v (sent ++ emitted_by st)
    unfolding emit write_event emit_line close_line_writer
    step-Carries u sent {w} (emitting now t d) h =
        let (new, part, e) = queued now t d w in
        record {
          es = h.es;
          more = h.more ++ new;
          bytes = h.bytes;
          order =
              rw (e, ← append_assoc (contents h.es) (contents w.events) new, h.order)
                (append_assoc (contents u.events) h.more new);
          part = append-IsPart h.part part;
          flushed = h.flushed;
          ended = h.ended;
        }
    step-Carries u sent {w} (writing now env rest live e) h =
        let new : Envelope F = record env { timestamp = now } in
        record {
          es = h.es ++ (new ∷ []);
          more = h.more;
          bytes = rw (h.bytes, bytes_of-append json h.es (new ∷ [])) (simp appends);
          order = simp (appends, contents-append) (rw e at h.order);
          part = unchanged sent h.part;
          flushed = λ f. absurd (not_both live f);
          ended = h.ended;
        }
    step-Carries u sent (closing e) h = record {
      es = h.es;
      more = h.more;
      bytes = h.bytes;
      order = h.order;
      part = unchanged sent h.part;
      flushed = h.flushed;
      ended = h.ended;
    }
    step-Carries u sent (finishing d e q) h = record {
      es = h.es;
      more = h.more;
      bytes = h.bytes;
      order = h.order;
      part = unchanged sent h.part;
      flushed = λ f. (
        h.more,
        sym (append-nil (contents h.es))
            ∙ ap (λ (l : List (Envelope F)). contents h.es ++ contents l) (sym q)
            ∙ h.order,
      );
      ended = λ c. refl;
    }
    step-Carries u sent (returning f c) h = record {
      es = h.es;
      more = h.more;
      bytes = closed_bytes _ ∙ h.bytes;
      order = h.order;
      part = unchanged sent h.part;
      flushed = h.flushed;
      ended = λ c'. f;
    }

    pub reach-Carries :
        {u w : Writer F} (r : Reach json u w)
        → u.finished ≡ false
        → u.closed ≡ false
        → Carries u w (emitted r)
    reach-Carries {u = u} here live open_yet = record {
      es = [];
      more = [];
      bytes = sym (append-nil u.inner.bytes);
      order = sym (append-nil (contents u.events));
      part = nothing;
      flushed = λ f. absurd (not_both live f);
      ended = λ c. absurd (not_both open_yet c);
    }
    reach-Carries {u = u} (next r st) live open_yet =
        step-Carries u (emitted r) st (reach-Carries r live open_yet)

    -- However the program emits and closes and the goroutine of the writer takes its turns: a reader of
    -- the file finds one line for each of a series of events that have a text, and these events are
    -- some of those emitted, in their order, none of them twice.
    pub lines_in_order :
        (is_closer : Bool) (w : Writer F) (r : Reach json (new_writer is_closer) w)
        → (es : List (Envelope F)) × (lines_read [] w.inner.bytes ≡ texts json es)
          × IsPart (contents es) (emitted r)
    unfolding new_writer new_json_line_writer
    lines_in_order is_closer w r =
        let h = reach-Carries r refl refl in
        (
          h.es,
          ap (lines_read []) h.bytes ∙ lines_read-bytes_of json h.es,
          trans-IsPart (prefix-IsPart (contents h.es) (contents w.events))
              (subst (λ (l : List (Emission F)). IsPart l (emitted r)) (sym h.order) h.part),
        )
