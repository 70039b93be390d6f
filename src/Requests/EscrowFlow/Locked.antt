-- ===== src/Requests/EscrowFlow/Locked.antt =====
-- A selection over the HTLC escrow provider: what the committed query may rely on.
use anchr.Prelude.{Option, Eq-string}
use anchr.Prelude.Dict.{Dict}
