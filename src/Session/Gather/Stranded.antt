-- ===== src/Session/Gather/Stranded.antt =====
-- A relay candidate that the filter excludes (session.cpp).
use link_ice.Prelude.{◌≡◌, true, List, [], ◌∷◌, All}
use link_ice.Turn.Client.{TurnConfig}
use link_ice.Session.{Session}
use link_ice.Session.Gather.{
  is_gathering, arm_allocate, allocate_turn, GatherConfig, Around, Step, Gatherer,
}
use link_ice.Session.Gather.Fire.{fire}

-- The session gathers, and for the TURN part.
abbrev pub Waits : Gatherer → Type 0
Waits g = (g.turn_gathering ≡ true) × (is_gathering g.session.state ≡ true)

-- The steps that do nothing any more when they come.
abbrev IsOver : GatherConfig → Around → Gatherer → List Step → Type 0
IsOver cfg out g xs = All (λ (a : Step). fire cfg out a g ≡ g) xs

module _ (cfg : GatherConfig) (out : Around) where
  -- The first server is tried, and that is all that has happened.
  abbrev Trying : Gatherer → Gatherer → Type 0
  Trying g h =
      (h.turn_gathering ≡ true)
      × (h.session ≡ g.session)
      × ((c : TurnConfig) × (h.steps ≡ allocate_turn c ∷ arm_allocate h.turn_allocate_gen ∷ []))
