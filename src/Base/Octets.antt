-- ===== src/Base/Octets.antt =====
-- Go strings and byte slices: lists of bytes. A literal is written as native text, in ASCII.
use Prim.Native.Nat.{ℕ}
use Prim.Native.Char.{code}
use Prim.Native.String.{String}
use mathlib.Core.Path.{◌≡◌, refl}
use mathlib.Core.Logic.{◌↔◌}
use mathlib.Core.Bool.{Bool, true, false, ◌&&◌}
use mathlib.Core.List.{List, [], ◌∷◌}
use native.Mathlib.Omega.{arith}
use schroedinger_sync.Base.Tests.{◌==◌}

abbrev pub Bytes : Type 0
Bytes = List ℕ

-- The bytes of an ASCII text.
abbrev pub ascii : String → Bytes
ascii String.[] = []
ascii (String.◌∷◌ c s) = code c ∷ ascii s

-- Go's `==` on strings.
infix 50 ◌=?◌
unfoldable pub ◌=?◌ : Bytes → Bytes → Bool
[] =? [] = true
(x ∷ xs) =? (y ∷ ys) = x == y && xs =? ys
_ =? _ = false

pub =?_iff : (a b : Bytes) → ((a =? b) ≡ true) ↔ (a ≡ b)
unfolding ◌=?◌
=?_iff (x ∷ a) (y ∷ b) = ground (arith, =?_iff a b)
=?_iff _ _ = ground arith

pub =?_refl : (a : Bytes) → (a =? a) ≡ true
=?_refl a = (=?_iff a a).1 refl
