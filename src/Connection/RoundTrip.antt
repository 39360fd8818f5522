-- ===== src/Connection/RoundTrip.antt =====
-- What libpq reads from to_connection_string (components/database/providers/postgresql/config/
-- postgres_connection_config.hpp): which values come back, and which do not.
use demiplane.Prelude.{true, ◌≡◌, List, All}
use demiplane.Connection.Reader.{Pair}
use demiplane.Connection.Legible.{is_legible}

abbrev pub AllLegible : List Pair → Type 0
AllLegible ps = All (λ (p : Pair). is_legible p.1 ≡ true) ps
