-- ===== src/Protocol/Examples.antt =====
-- Versions 1.1 and 1.10, and a hidden capability.
use xfr.Prelude.{ℕ, ◌≡◌, refl, List, [], ◌∷◌}
use xfr.Protocol.{TimestampFormat, relative, iso8601, unix, next, prev}

abbrev one : List ℕ
one = 49 ∷ []

abbrev ten : List ℕ
ten = 49 ∷ 48 ∷ []

-- Going forth and back through the timestamp formats ends where it began.
prev-next : (f : TimestampFormat) → prev (next f) ≡ f
unfolding next prev
prev-next relative = refl
prev-next iso8601 = refl
prev-next unix = refl
