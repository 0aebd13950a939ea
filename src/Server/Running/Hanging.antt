-- ===== src/Server/Running/Hanging.antt =====
-- `run` after a failed write whose close frame cannot be written either.
use securetunnel.Base.{◌≡◌, false}
use securetunnel.Server.Running.{reading, Writer, waiting_reader, Run}

-- Still open, with `run` at `<-chReadErr` and the reader in `Next`.
abbrev IsHanging : Run → Type 0
IsHanging s =
    (s.caller ≡ waiting_reader)
    × (s.reader ≡ reading)
    × (s.con_closed ≡ false)
    × (s.buffered ≡ 0)
    × (s.writer ≡ Writer.ended)
