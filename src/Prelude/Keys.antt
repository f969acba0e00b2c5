-- ===== src/Prelude/Keys.antt =====
-- Keys of three parts, for the document keys that the stores format as `a::b::c`.
use Prim.Native.String.{String}
use mathlib.Core.Path.{◌≡◌}
use mathlib.Core.Logic.{◌↔◌}
use mathlib.Core.Bool.{Bool, true, ◌&&◌}
use native.Mathlib.Omega.{arith}
use text.Mathlib.TextEquality.{eq_iff}
use agentcy.Prelude.Tests.{Eq, ◌==◌, string_eq}

pub record Triple : Type 0 where
  pub first : String
  pub second : String
  pub third : String

unfoldable pub triple_beq : Triple → Triple → Bool
triple_beq a b = a.first == b.first && a.second == b.second && a.third == b.third

pub triple_beq_iff : (a b : Triple) → (triple_beq a b ≡ true) ↔ (a ≡ b)
unfolding triple_beq
triple_beq_iff a b =
    ground (arith, eq_iff a.first b.first, eq_iff a.second b.second, eq_iff a.third b.third)

instance abbrev pub triple_eq : Eq Triple
triple_eq = record { beq = triple_beq; beq_iff = triple_beq_iff }
