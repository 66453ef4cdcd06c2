-- ===== src/Provider/StripThinking.antt =====
-- pkg/provider/strip_thinking.go: the removal of inline <think> blocks from answers and streams. A text
-- is the list of its bytes. The two regular expressions are written out as the searches that they
-- stand for on ASCII texts; `strings.ToLower` is a parameter of the stream.
pub mod Tags
pub mod Blocks
pub mod Stream
pub mod Same
pub mod Search
pub mod Lookahead
pub mod Ascii
pub mod Whole
mod Tests
