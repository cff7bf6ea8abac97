-- ===== src/Probe/Buffer/Shedding.antt =====
-- What an overflowing buffer gives up (Buffer.Add and shedOneLocked, internal/probe/buffer.go).
use uptime_cairn.Base.{◌≤◌, ◌≡◌, refl, ◌∙◌, ◌⊎◌, List, [], ◌∷◌, ◌++◌, arith, length}
use uptime_cairn.Probe.Wire.{Result}
use uptime_cairn.Probe.Buffer.{Buffer, over_bounds, changes, append, add}
use uptime_cairn.Probe.Buffer.Bounds.{Inv, add-Shed}

changes-append : (xs ys : List Result) → changes (xs ++ ys) ≡ changes xs ++ changes ys
unfolding changes
changes-append [] ys = refl
changes-append (x ∷ xs) ys = ground (arith, changes-append xs ys)

-- Adding a result to a buffer with exact accounting loses no result whose outcome changed, neither
-- an older one nor the new one, and keeps those in their order, however far the buffer is over its
-- bounds.
pub changes-add :
    (b : Buffer) (r : Result)
    → Inv b
    → changes (add b r).items ≡ changes b.items ++ changes (r ∷ [])
unfolding append
changes-add b r v = (add-Shed b r v).kept ∙ changes-append b.items (r ∷ [])

-- After a result is added to a buffer with exact accounting, the buffer is within both of its
-- bounds, unless every result that is left records a change of outcome.
pub add_bounds :
    (b : Buffer) (r : Result)
    → Inv b
    → ((length (add b r).items ≤ b.max_items) × ((add b r).bytes ≤ b.max_bytes))
      ⊎ (changes (add b r).items ≡ (add b r).items)
unfolding append over_bounds
add_bounds b r v = ground (arith, add-Shed b r v)
