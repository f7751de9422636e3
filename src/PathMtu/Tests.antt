-- ===== src/PathMtu/Tests.antt =====
-- Runs of the search for the path MTU.
use link_ice.Prelude.{◌+◌, ◌≤◌, ◌<◌, ◌≡◌, arith, List, [], ◌∷◌, All, ◌⊎◌}
use link_ice.PathMtu.{new_probe, search_complete}
use link_ice.PathMtu.Ladder.{ℤ, pos, negsuc, prepare, insert, sort, unique, above}
use link_ice.PathMtu.Accuracy.{drive, search_finds_mtu}

abbrev rungs : List ℤ
rungs = pos 1400 ∷ negsuc 3 ∷ pos 1280 ∷ []

search_finds_mtu_example :
    let p = drive 13 50 (new_probe 10 (pos 16 ∷ pos 12 ∷ [])) in
    (p.state ≡ search_complete)
    × (p.effective ≤ 13)
    × ((13 < p.effective + 8) ⊎ All (λ x. x ≤ p.effective) (prepare 10 (pos 16 ∷ pos 12 ∷ [])))
unfolding prepare insert sort unique above
search_finds_mtu_example =
    search_finds_mtu 13 16 10 50 (pos 16 ∷ pos 12 ∷ []) (omega arith)
      (omega arith, (omega arith, tt)) (omega arith)
