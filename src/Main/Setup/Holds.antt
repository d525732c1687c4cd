-- ===== src/Main/Setup/Holds.antt =====
-- cmd/xbslink-ng/main.go: what holds of the result of a set-up.
use xbslink_ng.Base.{◌≡◌, ap, subst, Bool, true, false, if◌then◌else◌}
use xbslink_ng.Main.Setup.{Failure, Setup, exits, blocked, ready, ◌>>=◌}

-- What holds of the value, if the set-up gets there.
pub data Holds {A : Type 0} (P : A → Type 0) : Setup A → Type 0 where
  at_exit : (e : Failure) → Holds P (exits e)
  at_block : Holds P blocked
  at_value : (a : A) → P a → Holds P (ready a)

pub Holds-bind :
    {A B : Type 0} {P : A → Type 0} {Q : B → Type 0} (m : Setup A) (f : A → Setup B)
    → Holds P m
    → ((a : A) → P a → Holds Q (f a))
    → Holds Q (m >>= f)
unfolding ◌>>=◌
Holds-bind _ f (at_exit e) k = at_exit e
Holds-bind _ f at_block k = at_block
Holds-bind _ f (at_value a h) k = k a h

pub Holds-skip :
    {A B : Type 0} {Q : B → Type 0} (m : Setup A) (f : A → Setup B)
    → ((a : A) → Holds Q (f a))
    → Holds Q (m >>= f)
unfolding ◌>>=◌
Holds-skip (exits e) f k = at_exit e
Holds-skip blocked f k = at_block
Holds-skip (ready a) f k = k a

pub Holds-map :
    {A : Type 0} {P Q : A → Type 0} {m : Setup A} → ((a : A) → P a → Q a) → Holds P m → Holds Q m
Holds-map k (at_exit e) = at_exit e
Holds-map k at_block = at_block
Holds-map k (at_value a h) = at_value a (k a h)

pub otherwise :
    {A : Type 0} {P : A → Type 0} (x y : Setup A) {b : Bool}
    → b ≡ false
    → Holds P y
    → Holds P (if b then x else y)
otherwise x y {b = true} e h = cc e
otherwise x y {b = false} e h = h

pub then_ :
    {A : Type 0} {P : A → Type 0} (x y : Setup A) {b : Bool}
    → b ≡ true
    → Holds P x
    → Holds P (if b then x else y)
then_ x y {b = true} e h = h
then_ x y {b = false} e h = cc e

pub if-Holds :
    {A : Type 0} {P : A → Type 0} (x y : Setup A) (b : Bool)
    → Holds P x
    → Holds P y
    → Holds P (if b then x else y)
if-Holds x y true h k = h
if-Holds x y false h k = k

value_or : {A : Type 0} → A → Setup A → A
value_or d (exits e) = d
value_or d blocked = d
value_or d (ready a) = a

pub from_ready : {A : Type 0} {P : A → Type 0} {m : Setup A} (a : A) → Holds P m → m ≡ ready a → P a
unfolding value_or
from_ready a (at_exit e) h = cc h
from_ready a at_block h = cc h
from_ready {P = P} a (at_value b p) h = subst P (ap (value_or a) h) p
