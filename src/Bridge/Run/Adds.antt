-- ===== src/Bridge/Run/Adds.antt =====
-- internal/bridge/bridge.go: what the handler of a message adds to the frames to be injected.
use xbslink_ng.Base.{
  append-nil, ℕ, ◌≡◌, refl, sym, ◌∙◌, inl, inr, Bool, List, [], ◌∷◌, ◌++◌, ltb, length, IsPart,
  nothing, keep, skip, nil-IsPart, if_true, if_false, Bool-cases,
}
use xbslink_ng.Protocol.{Mac, Codec}
use xbslink_ng.Protocol.Messages.{Outgoing, frame, hello, hello_ack, ping, pong, bye, meaning}
use xbslink_ng.Protocol.Network.{IsCounted}
use xbslink_ng.Bridge.Rtt.{Float64}
use xbslink_ng.Bridge.{Bridge, channel_buffer_size, dispatch, handle_frame}
use xbslink_ng.Protocol.Ear.{SameEar}
use xbslink_ng.Bridge.Run.Inbound.{KeepsInbound, dispatch-KeepsInbound}
use xbslink_ng.Bridge.Run.Frames.{frames_in}

-- What the handler of a message adds to the queue for injection.
pub record Adds (b b' : Bridge) (o : Outgoing) : Type 0 where
  pub added : List (List ℕ)
  pub part : IsPart added (frames_in (o ∷ []))
  pub ear : SameEar b.transport.codec b'.transport.codec
  pub queue : b'.frames_to_inject ≡ b.frames_to_inject ++ added

KeepsInbound-Adds : {b b' : Bridge} (o : Outgoing) → KeepsInbound b b' → Adds b b' o
KeepsInbound-Adds {b} o h = record {
  added = [];
  part = nil-IsPart (frames_in (o ∷ []));
  ear = h.ear;
  queue = h.queue ∙ sym (append-nil b.frames_to_inject);
}

module _ (mac : Mac) (s : Codec) where
  pub dispatch-Adds :
      (f : Float64) (now : ℕ) (write_ok : Bool) (b : Bridge) (o : Outgoing)
      → IsCounted mac o
      → Adds b (dispatch mac f now write_ok b (meaning mac s o)).0 o
  unfolding dispatch handle_frame
  dispatch-Adds f now write_ok b (frame x) h =
      elim (Bool-cases (ltb (length b.frames_to_inject) channel_buffer_size)) [
        | inl e ↦ record {
          added = x ∷ [];
          part = keep x nothing;
          ear = record { key = refl; mode = refl; nonce = refl };
          queue = if_true _ _ e;
        }
        | inr e ↦ record {
          added = [];
          part = skip x nothing;
          ear = record { key = refl; mode = refl; nonce = refl };
          queue = if_false _ _ e ∙ sym (append-nil b.frames_to_inject);
        }
      ]
  dispatch-Adds f now write_ok b (ping t) h =
      KeepsInbound-Adds (ping t)
        (dispatch-KeepsInbound mac f now write_ok b (meaning mac s (ping t)) refl)
  dispatch-Adds f now write_ok b (pong t) h =
      KeepsInbound-Adds (pong t)
        (dispatch-KeepsInbound mac f now write_ok b (meaning mac s (pong t)) refl)
  dispatch-Adds f now write_ok b bye h =
      KeepsInbound-Adds bye (dispatch-KeepsInbound mac f now write_ok b (meaning mac s bye) refl)
  dispatch-Adds f now write_ok b (hello x) h = absurd cc
  dispatch-Adds f now write_ok b (hello_ack x) h = absurd cc
