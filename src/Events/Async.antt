-- ===== src/Events/Async.antt =====
-- internal/events/jsonline.go: `AsyncJSONLineWriter` as a step relation. The program emits, at any time
-- and from any goroutine, and closes; the goroutine `writer` takes events from the queue, and after
-- `Close` it returns once it finds the queue empty.
use xbslink_ng.Base.{ℕ, ◌≡◌, Bool, true, false, List, [], ◌∷◌, offer}
use xbslink_ng.Events.{
  EventType, Data, Envelope, Json, JsonLineWriter, new_json_line_writer, emit_line,
  close_line_writer,
}

abbrev pub buffer_size : ℕ
buffer_size = 64

-- `done` is the closed channel; `finished` is the end of the goroutine, for which `Close` waits, and
-- `closed` its return.
pub record Writer (F : Type 0) : Type 0 where
  pub events : List (Envelope F)
  pub done : Bool
  pub finished : Bool
  pub closed : Bool
  pub inner : JsonLineWriter

module _ {F : Type 0} where
  -- `NewAsyncJSONLineWriter`.
  unfoldable pub new_writer : Bool → Writer F
  new_writer is_closer = record {
    events = [];
    done = false;
    finished = false;
    closed = false;
    inner = new_json_line_writer is_closer;
  }

  -- `AsyncJSONLineWriter.Emit`.
  unfoldable pub emit : ℕ → EventType → Data F → Writer F → Writer F
  emit now t d w = record w {
    events = offer buffer_size w.events (record { event_type = t; timestamp = now; data_of = d });
  }

  module _ (json : Json F) where
    -- `a.w.Emit(env.Type, env.Data)` on the event that has left the queue.
    unfoldable pub write_event : ℕ → Envelope F → List (Envelope F) → Writer F → Writer F
    write_event now env rest w = record w {
      events = rest;
      inner = emit_line json now env.event_type env.data_of w.inner;
    }

    pub data Step (w : Writer F) : Writer F → Type 0 where
      emitting : (now : ℕ) (t : EventType) (d : Data F) → Step w (emit now t d w)
      writing :
          (now : ℕ) (env : Envelope F) (rest : List (Envelope F))
          → w.finished ≡ false
          → w.events ≡ env ∷ rest
          → Step w (write_event now env rest w)
      closing : w.done ≡ false → Step w (record w { done = true })
      finishing :
          w.done ≡ true → w.finished ≡ false → w.events ≡ [] → Step w (record w { finished = true })
      returning :
          w.finished ≡ true
          → w.closed ≡ false
          → Step w (record w { closed = true; inner = close_line_writer w.inner })

    pub data Reach (w : Writer F) : Writer F → Type 0 where
      here : Reach w w
      next : {u v : Writer F} → Reach w u → Step u v → Reach w v

    -- One series of steps behind another.
    pub append : {u v w : Writer F} → Reach u v → Reach v w → Reach u w
    append r here = r
    append r (next q st) = next (append r q) st
