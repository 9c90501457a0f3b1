-- ===== src/Engine/Flap/Tests.antt =====
-- The unit tests of flap.rs, and an instance of the theorem.
use monitra.Base.{◌≡◌, refl, false, [], ◌∷◌}
use monitra.Models.{pending, up, down}
use monitra.Engine.Flap.{fresh, observe}
use monitra.Engine.Flap.Damping.{feed}

down_needs_two : (feed fresh up (false ∷ [])).1 ≡ up
unfolding feed observe
down_needs_two = refl

pending_resolves : (feed fresh pending (false ∷ false ∷ [])).1 ≡ down
unfolding feed observe
pending_resolves = refl
