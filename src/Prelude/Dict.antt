-- ===== src/Prelude/Dict.antt =====
-- JavaScript's `Map` as an association list in insertion order.
use Prim.Native.String.{String}
use mathlib.Core.Path.{◌≡◌, refl}
use mathlib.Core.Option.{Option, none, some}
use mathlib.Core.List.{List, [], ◌∷◌}
use native.Mathlib.Omega.{arith}
use text.Mathlib.Text.{◌==◌ as str_eq}
use text.Mathlib.TextEquality.{eq_iff}
use lp_monitor.Prelude.Tests.{if◌then◌else◌}

abbrev pub Dict {ℓ} : Type ℓ → Type ℓ
Dict V = List (String × V)

-- `map.get(key)`; the first entry of a key is the one that counts.
unfoldable pub lookup {ℓ} : {V : Type ℓ} → String → Dict V → Option V
lookup key [] = none
lookup key ((name, value) ∷ rest) =
    let later = lookup key rest in if str_eq name key then some value else later

-- `map.set(key, value)` keeps the place of a key that is there.
unfoldable pub insert {ℓ} : {V : Type ℓ} → String → V → Dict V → Dict V
insert key value [] = (key, value) ∷ []
insert key value ((name, old) ∷ rest) =
    let after = (name, old) ∷ insert key value rest in
    if str_eq name key then (key, value) ∷ rest else after

-- A `get` behind a `set`.
pub lookup-insert {ℓ} :
    {V : Type ℓ} (key asked : String) (value : V) (d : Dict V)
    → lookup asked (insert key value d) ≡ (if str_eq key asked then some value else lookup asked d)
unfolding insert lookup
lookup-insert key asked value [] = refl
lookup-insert key asked value ((name, old) ∷ rest) =
    let tail = lookup-insert key asked value rest in
    ground (arith, tail, eq_iff name asked, eq_iff name key, eq_iff key asked)
