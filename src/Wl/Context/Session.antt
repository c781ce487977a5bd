-- ===== src/Wl/Context/Session.antt =====
-- `Context::Execute` of p1/wl.cpp against a session that keeps the words of the loaded file as a list.
use cs564_projects.Prelude.{ℕ, ◌<◌, List, [], ◌∷◌}
use cs564_projects.Wl.Command.{Command}
use cs564_projects.Wl.Context.{Context}

-- Places count from 1, so that 0 is none.
abbrev AllPlaces : List ℕ → Type 0
AllPlaces [] = Unit
AllPlaces (p ∷ ps) = (0 < p) × AllPlaces ps
