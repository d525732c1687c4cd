-- ===== src/Bridge/Run/Frames.antt =====
-- internal/bridge/bridge.go: the frames among the messages that an end has sent.
use mathlib.Core.Path.{subst}
use xbslink_ng.Base.{
  ℕ, zero, suc, ◌<◌, ◌≤◌, ◌≡◌, refl, sym, ap, ◌∙◌, List, [], ◌∷◌, ◌++◌, arith, length, get_or, take,
  drop, take-append-drop, take-take, IsPart, nothing, keep, skip, append-IsPart, trans-IsPart,
  prefix-IsPart,
}
use xbslink_ng.Protocol.Messages.{Outgoing, frame, hello, hello_ack, ping, pong, bye}

-- The frames among the messages that an end has sent.
abbrev pub frames_in : List Outgoing → List (List ℕ)
frames_in [] = []
frames_in (frame x ∷ os) = x ∷ frames_in os
frames_in (o ∷ os) = frames_in os

pub frames_in-append : (xs ys : List Outgoing) → frames_in (xs ++ ys) ≡ frames_in xs ++ frames_in ys
frames_in-append [] ys = refl
frames_in-append (frame x ∷ xs) ys = ap (◌∷◌ x) (frames_in-append xs ys)
frames_in-append (hello x ∷ xs) ys = frames_in-append xs ys
frames_in-append (hello_ack x ∷ xs) ys = frames_in-append xs ys
frames_in-append (ping x ∷ xs) ys = frames_in-append xs ys
frames_in-append (pong x ∷ xs) ys = frames_in-append xs ys
frames_in-append (bye ∷ xs) ys = frames_in-append xs ys

frames_in-IsPart : {xs ys : List Outgoing} → IsPart xs ys → IsPart (frames_in xs) (frames_in ys)
frames_in-IsPart nothing = nothing
frames_in-IsPart (keep (frame x) p) = keep x (frames_in-IsPart p)
frames_in-IsPart (keep (hello x) p) = frames_in-IsPart p
frames_in-IsPart (keep (hello_ack x) p) = frames_in-IsPart p
frames_in-IsPart (keep (ping x) p) = frames_in-IsPart p
frames_in-IsPart (keep (pong x) p) = frames_in-IsPart p
frames_in-IsPart (keep bye p) = frames_in-IsPart p
frames_in-IsPart (skip (frame x) p) = skip x (frames_in-IsPart p)
frames_in-IsPart (skip (hello x) p) = frames_in-IsPart p
frames_in-IsPart (skip (hello_ack x) p) = frames_in-IsPart p
frames_in-IsPart (skip (ping x) p) = frames_in-IsPart p
frames_in-IsPart (skip (pong x) p) = frames_in-IsPart p
frames_in-IsPart (skip bye p) = frames_in-IsPart p

-- A prefix of a list, cut at an earlier place.
cut_at :
    (k i : ℕ) (os : List Outgoing)
    → k ≤ suc i
    → frames_in (take k os) ++ frames_in (drop k (take (suc i) os)) ≡ frames_in (take (suc i) os)
cut_at k i os h =
    ap (λ (xs : List Outgoing). frames_in xs ++ frames_in (drop k (take (suc i) os)))
      (sym (take-take k (suc i) os h))
    ∙ sym (frames_in-append (take k (take (suc i) os)) (drop k (take (suc i) os)))
    ∙ ap frames_in (take-append-drop k (take (suc i) os))

last_taken :
    (os : List Outgoing) (k i : ℕ)
    → k ≤ i
    → i < length os
    → IsPart (get_or os i bye ∷ []) (drop k (take (suc i) os))
last_taken [] k i h lt = absurd (omega arith)
last_taken (o ∷ os) zero zero h lt = keep o nothing
last_taken (o ∷ os) (suc k) zero h lt = absurd (omega arith)
last_taken (o ∷ os) zero (suc i) h lt = skip o (last_taken os zero i (omega arith) (omega arith))
last_taken (o ∷ os) (suc k) (suc i) h lt = last_taken os k i (omega arith) (omega arith)

-- What the i-th message adds to a part of the frames before the k-th.
pub grown :
    (os : List Outgoing) (k i : ℕ) {xs ys : List (List ℕ)}
    → k ≤ i
    → i < length os
    → IsPart xs (frames_in (take k os))
    → IsPart ys (frames_in (get_or os i bye ∷ []))
    → IsPart (xs ++ ys) (frames_in (take (suc i) os))
grown os k i {xs} {ys} h lt p q =
    subst (IsPart (xs ++ ys)) (cut_at k i os (omega (arith, h)))
      (append-IsPart p (trans-IsPart q (frames_in-IsPart (last_taken os k i h lt))))

-- What has been taken of the first `k` messages is a part of all of them.
pub all_of :
    (os : List Outgoing) (k : ℕ) {xs : List (List ℕ)}
    → IsPart xs (frames_in (take k os))
    → IsPart xs (frames_in os)
all_of os k {xs} p =
    subst (λ (ys : List Outgoing). IsPart xs (frames_in ys)) (take-append-drop k os)
      (subst (IsPart xs) (sym (frames_in-append (take k os) (drop k os)))
        (trans-IsPart p (prefix-IsPart (frames_in (take k os)) (frames_in (drop k os)))))
