-- ===== src/Generating/State/Reading.antt =====
-- What a state that is read has passed, for `decodeState` of internal/compiler/state.go.
use stego.Generating.State.{State}
