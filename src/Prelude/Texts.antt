-- ===== src/Prelude/Texts.antt =====
-- Comparison of texts, and dictionaries keyed by texts (the source's `Map<string, V>`).
use Prim.Native.String.{String}
use text.Mathlib.Text.{◌==◌}
use mathlib.Core.Path.{◌≡◌, refl}
use mathlib.Core.Bool.{Bool, false, ◌||◌}
use mathlib.Core.List.{List, [], ◌∷◌}
use mathlib.Core.Option.{Option, none, some}
use native.Mathlib.Omega.{arith}
use hellodac.Prelude.Tests.{if◌then◌else◌}
pub use text.Mathlib.TextEquality.{eq_iff}
pub use text.Mathlib.TextPositions.{eq_refl}

infix 50 ◌is◌
abbrev pub ◌is◌ : String → String → Bool
a is b = a == b

abbrev pub includes : List String → String → Bool
includes [] k = false
includes (x ∷ xs) k = x is k || includes xs k

-- `Map<string, V>`: `get`, `set` and `delete`.
abbrev pub Dict {ℓ} : Type ℓ → Type ℓ
Dict V = List (String × V)

unfoldable pub dict_get {ℓ} : {V : Type ℓ} → Dict V → String → Option V
dict_get [] key = none
dict_get (entry ∷ rest) key = if entry.0 is key then some entry.1 else dict_get rest key

unfoldable pub dict_set {ℓ} : {V : Type ℓ} → Dict V → String → V → Dict V
dict_set [] key value = (key, value) ∷ []
dict_set (entry ∷ rest) key value =
    if entry.0 is key then (entry.0, value) ∷ rest else entry ∷ dict_set rest key value

unfoldable pub dict_delete {ℓ} : {V : Type ℓ} → Dict V → String → Dict V
dict_delete [] key = []
dict_delete (entry ∷ rest) key =
    if entry.0 is key then dict_delete rest key else entry ∷ dict_delete rest key

-- A read after a write sees the written value at its key, and the old ones elsewhere.
pub dict_get-dict_set {ℓ} :
    {V : Type ℓ} (m : Dict V) (key other : String) (value : V)
    → dict_get (dict_set m key value) other
      ≡ (if key is other then some value else dict_get m other)
unfolding dict_get dict_set
dict_get-dict_set [] key other value = refl
dict_get-dict_set (entry ∷ rest) key other value = ground (
  arith,
  dict_get-dict_set rest key other value,
  eq_iff entry.0 key,
  eq_iff entry.0 other,
  eq_iff key other,
)

pub dict_get-dict_delete {ℓ} :
    {V : Type ℓ} (m : Dict V) (key other : String)
    → dict_get (dict_delete m key) other ≡ (if key is other then none else dict_get m other)
unfolding dict_get dict_delete
dict_get-dict_delete [] key other = ground arith
dict_get-dict_delete (entry ∷ rest) key other = ground (
  arith,
  dict_get-dict_delete rest key other,
  eq_iff entry.0 key,
  eq_iff entry.0 other,
  eq_iff key other,
)
