-- ===== src/Disk/Paths.antt =====
-- Paths are told apart by their last six bytes, whatever their directories.
use skytap.Common.{suc, ◌-◌, ◌≤◌, ◌≡◌, refl, ◌∙◌, arith, [], ◌∷◌, ◌++◌, length, length-append, drop}
use skytap.Text.{Str, codes}
use skytap.Disk.{join}

unfoldable pub ending : Str → Str
ending s = drop (length s - 6) s

ending-append : (a b : Str) → 6 ≤ length b → ending (a ++ b) ≡ ending b
unfolding ending
ending-append [] b h = refl
ending-append (c ∷ a) b h =
    let longer : length (c ∷ (a ++ b)) - 6 ≡ suc (length (a ++ b) - 6) =
      omega (arith, length-append a b) in
    rw longer (ending-append a b h)

pub ending-join : (dir name : Str) → 6 ≤ length name → ending (join dir name) ≡ ending name
unfolding join
ending-join [] name h = refl
ending-join (c ∷ dir) name h =
    ending-append (c ∷ dir) (codes "/" ++ name) (omega arith) ∙ ending-append (codes "/") name h
