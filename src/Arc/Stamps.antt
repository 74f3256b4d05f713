-- ===== src/Arc/Stamps.antt =====
-- The `HashMap` from (frame, page) to the time of its last access.
use buffer_pool.Base.{ℕ, Bool, List, [], ◌∷◌, ◌&&◌, ◌==◌, if◌then◌else◌}

abbrev pub pair_eq : ℕ × ℕ → ℕ × ℕ → Bool
pair_eq x y = x.0 == y.0 && x.1 == y.1

unfoldable pub stamp : ℕ × ℕ → ℕ → List ((ℕ × ℕ) × ℕ) → List ((ℕ × ℕ) × ℕ)
stamp k now [] = (k, now) ∷ []
stamp k now ((j, t) ∷ m) = if pair_eq j k then (k, now) ∷ m else (j, t) ∷ stamp k now m

unfoldable pub unstamp : ℕ × ℕ → List ((ℕ × ℕ) × ℕ) → List ((ℕ × ℕ) × ℕ)
unstamp k [] = []
unstamp k ((j, t) ∷ m) = if pair_eq j k then m else (j, t) ∷ unstamp k m
