-- ===== src/Prelude/Replace.antt =====
-- Python's `str.replace` and `str.split` with a separator, and `str.join`.
use Prim.Native.Nat.{ℕ, zero, suc}
use mathlib.Core.Path.{◌≡◌, refl, ap}
use mathlib.Core.Bool.{true, false}
use mathlib.Core.List.{[], ◌∷◌, ◌++◌}
use native.Mathlib.Omega.{arith}
use ai_document_analysis.Prelude.Lists.{length}
use ai_document_analysis.Prelude.Tests.{if◌then◌else◌}
use ai_document_analysis.Prelude.Strings.{Text, starts_with, contains}

-- The rest of `text.replace(c :: old, new)`, where `skip` characters belong to an occurrence that
-- was replaced.
unfoldable pub replace_from : ℕ → ℕ → Text → Text → Text → Text
replace_from c skip old new [] = []
replace_from c (suc skip) old new (d ∷ t) = replace_from c skip old new t
replace_from c zero old new (d ∷ t) =
    let replaced = new ++ replace_from c (length old) old new t in
    let kept = d ∷ replace_from c zero old new t in
    if starts_with (c ∷ old) (d ∷ t) then replaced else kept

-- `text.replace(old, new)`; the empty `old`, which Python puts `new` around every character for,
-- does not occur.
unfoldable pub replace : Text → Text → Text → Text
unfolding replace_from
replace [] new t = t
replace (c ∷ old) new t = replace_from c zero old new t

replace_from-absent :
    (c : ℕ) (old new t : Text) → contains (c ∷ old) t ≡ false → replace_from c zero old new t ≡ t
unfolding replace_from contains starts_with
replace_from-absent c old new [] h = refl
replace_from-absent c old new (d ∷ t) h = ground (arith, h, replace_from-absent c old new t)

-- Where `old` does not occur, nothing is replaced.
pub replace-absent :
    (c : ℕ) (old new t : Text) → contains (c ∷ old) t ≡ false → replace (c ∷ old) new t ≡ t
unfolding replace
replace-absent c old new t h = replace_from-absent c old new t h

replace_from-skip :
    (c : ℕ) (old new s t : Text)
    → replace_from c (length s) old new (s ++ t) ≡ replace_from c zero old new t
unfolding replace_from
replace_from-skip c old new [] t = refl
replace_from-skip c old new (d ∷ s) t = replace_from-skip c old new s t

starts_with-append : (s t : Text) → starts_with s (s ++ t) ≡ true
unfolding starts_with
starts_with-append [] t = refl
starts_with-append (c ∷ s) t = ground (arith, starts_with-append s t)

-- An occurrence at the beginning is replaced.
pub replace_first :
    (c : ℕ) (old new t : Text)
    → replace (c ∷ old) new (c ∷ old ++ t) ≡ new ++ replace (c ∷ old) new t
unfolding replace
replace_first c old new t =
    rw (starts_with-append (c ∷ old) t, replace_from)
      (ap (λ r. new ++ r) (replace_from-skip c old new old t))
