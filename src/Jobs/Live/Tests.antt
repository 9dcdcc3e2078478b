-- ===== src/Jobs/Live/Tests.antt =====
-- The two jobs of a record on the small chain.
use you_fen.Base.{◌==◌}
use you_fen.Jobs.Fixture.{ToyChain, holds}
use you_fen.Jobs.Live.{LiveView}

abbrev view : LiveView ToyChain
view = record { on_chain = holds; writes = λ t h. t == h; count = λ e. e.count }
