-- ===== src/Base.antt =====
-- The names that the other modules share: the libraries', passed on, those of the children, and the
-- rulesets.
mod Tests
mod Lists
mod Copy
mod Bytes
mod Int64
mod Text
pub use Tests.*
pub use Lists.*
unfoldable pub use Copy.*
unfoldable pub use Text.*
unfoldable pub use Int64.*
unfoldable pub use Bytes.*
pub use Prim.Native.Nat.{ℕ, zero, suc, ◌+◌, ◌-◌, ◌*◌, ◌/◌, ◌%◌, ◌^◌, ◌≤◌, ◌<◌}
pub use mathlib.Core.Path.{◌≡◌, refl, sym, ap, ap₂, ◌∙◌, subst, fun_ext}
pub use mathlib.Core.Logic.{◌≢◌, ◌↔◌, ◌⊎◌, inl, inr}
pub use mathlib.Core.Bool.{Bool, true, false, not, ◌&&◌, ◌||◌}
pub use mathlib.Core.Option.{Option, none, some}
pub use mathlib.Core.List.{List, [], ◌∷◌, ◌++◌, append-nil, append_assoc}
pub use native.Mathlib.Omega.{arith}

-- Lengths, for `omega`, `ground` and `grind`.
pub ruleset sizes = (arith, length-append, length-replicate, length-put_uint16, length-put_uint64)

-- The normal form of a list that is put together from parts.
pub ruleset appends = (append_assoc, append-nil)
