-- ===== src/Prelude/Text.antt =====
-- Texts put together.
use Prim.Native.Nat.{ℕ, zero, suc}
use Prim.Native.String

infixr 60 ◌<>◌
abbrev pub ◌<>◌ : String.String → String.String → String.String
◌<>◌ = String.◌++◌

unfoldable pub repeated : ℕ → String.String → String.String
repeated zero s = ""
repeated (suc n) s = s <> repeated n s
