-- ===== src/Base/Bytes.antt =====
-- Numbers in memory, lowest byte first.
use Prim.Native.Nat.{ℕ, zero, suc, ◌+◌, ◌*◌, ◌/◌, ◌%◌, ◌^◌, ◌<◌}
use mathlib.Core.Path.{◌≡◌, refl, ap}
use mathlib.Core.List.{List, [], ◌∷◌}
use native.Mathlib.Omega.{arith}
use borderpatrol.Base.Lists.{length, All}

-- The `k` lowest bytes of `v`.
abbrev pub to_le : ℕ → ℕ → List ℕ
to_le zero v = []
to_le (suc k) v = (v % 256) ∷ to_le k (v / 256)

abbrev pub from_le : List ℕ → ℕ
from_le [] = 0
from_le (b ∷ bs) = b + 256 * from_le bs

pub length-to_le : (k v : ℕ) → length (to_le k v) ≡ k
length-to_le zero v = refl
length-to_le (suc k) v = ap suc (length-to_le k (v / 256))

pub from_le-to_le : (k v : ℕ) → v < 256 ^ k → from_le (to_le k v) ≡ v
from_le-to_le zero v h = omega arith
from_le-to_le (suc k) v h = omega (arith, from_le-to_le k (v / 256) (omega arith))

abbrev pub IsByte : ℕ → Type 0
IsByte b = b < 256

pub to_le-IsByte : (k v : ℕ) → All IsByte (to_le k v)
to_le-IsByte zero v = tt
to_le-IsByte (suc k) v = (omega arith, to_le-IsByte k (v / 256))

pub from_le-lt : (k : ℕ) (bs : List ℕ) → length bs ≡ k → All IsByte bs → from_le bs < 256 ^ k
from_le-lt zero [] e h = omega arith
from_le-lt zero (b ∷ bs) e h = absurd (omega arith)
from_le-lt (suc k) [] e h = absurd (omega arith)
from_le-lt (suc k) (b ∷ bs) e h = omega (arith, from_le-lt k bs (omega arith) h.1, h.0)
