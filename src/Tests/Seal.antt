-- ===== src/Tests/Seal.antt =====
-- Examples of seals over the root and its call.
use pollard.Common.{ℕ, ◌<◌, length, String, ◌≡◌, ◌↔◌, refl, List, [], ◌∷◌, some, All}
use pollard.Errors.{ok}
use pollard.Tree.{Node}
use pollard.Store.Walk.{Walks}
use pollard.Verify.Chain.{IsIntact}
use pollard.Seal.{SealEntry, SealReport, seal_nodes, seal_of}
use pollard.Seal.Intact.{seal_nodes_exact, seal_total}
use pollard.Tests.{checksum_sha, root_node, call_node}
use pollard.Tests.Store.{first_store, first_store-IsValid, first_store-IsOrdered}

seal_nodes_exact_example :
    ((r : String × List SealEntry) × (seal_nodes 0 "" (root_node ∷ call_node ∷ []) ≡ ok r))
    ↔ All IsIntact (root_node ∷ call_node ∷ [])
seal_nodes_exact_example = seal_nodes_exact 0 "" (root_node ∷ call_node ∷ [])

seal_total_example :
    (out : List Node) × (report : SealReport) × Walks first_store (root_node.id ∷ []) out
    × ((fuel : ℕ) → length out < fuel → seal_of fuel first_store root_node.id ≡ some (ok report))
seal_total_example =
    seal_total first_store root_node.id first_store-IsValid first_store-IsOrdered refl
