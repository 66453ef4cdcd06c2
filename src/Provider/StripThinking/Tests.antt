-- ===== src/Provider/StripThinking/Tests.antt =====
-- Runs of pkg/provider/strip_thinking.go.
use galdor.Schema.{text_part}
use galdor.Provider.StripThinking.Same.{extract_message-strip_message}
use galdor.Provider.StripThinking.Whole.{feed_all, feed_all-joined}
use galdor.Provider.StripThinking.Ascii.{feed-append}
use galdor.Provider.StripThinking.Stream.{
  Reader, Scan, content_delta, feed, idle, message_stop, recv,
}
use galdor.Provider.StripThinking.Blocks.{
  think_block, extract_message, extract_parts, extract_text, strip_message, strip_text,
  thinking_parts,
}
use galdor.Provider.StripThinking.Tags.{
  lower, Bytes, codes, find_close, find_open, has_prefix, index, open_tag,
}
use galdor.Prelude.{arith, List, [], false, none, ok, refl, some, true, ◌++◌, ◌∷◌, ◌≡◌}

abbrev answer : Bytes
answer = codes "Hi <Think a=\"1\">so</thinking> there"

stripped : strip_text answer ≡ (codes "Hi  there", true)
unfolding strip_text think_block open_tag find_close index has_prefix
stripped = refl

found : extract_text answer ≡ (codes "Hi  there", codes "so" ∷ [], true)
unfolding extract_text think_block open_tag find_close index has_prefix
found = refl

abbrev inner : Scan
inner = record { buf = codes "so</thi"; in_think = true }

-- A closing tag that two chunks share.
closes_split : feed lower inner (codes "nk> ok") ≡ (codes "ok", idle)
unfolding feed
closes_split = refl

-- A text that is no tag is held back until it is known.
holds_back :
    feed lower idle (codes "a <th") ≡ (codes "a ", record { buf = codes "<th"; in_think = false })
unfolding feed
holds_back = refl

abbrev reader : Reader
reader = record { collect = false; state = idle; pending = [] }

-- A stop flushes what is held back.
flushes :
    recv {X = Unit} lower reader (ok (content_delta (codes "<th")) ∷ ok (message_stop none) ∷ [])
    ≡ some (
      ok (content_delta (codes "<th")),
      record { collect = false; state = idle; pending = message_stop none ∷ [] },
      [],
    )
unfolding recv
flushes = refl

feed-append_example :
    ((feed lower inner (codes "ng")).0 ≡ [])
    × (feed lower (feed lower inner (codes "ng")).1 (codes ">x</think> ok")
        ≡ feed lower inner (codes "ng" ++ codes ">x</think> ok"))
feed-append_example =
    feed-append lower (λ s a. refl) inner (codes "ng") (codes ">x</think> ok") (omega arith) refl
      (unfold find_close in refl)

abbrev halves : List Bytes
halves = codes "a <th" ∷ codes "e b" ∷ []

feed_all-joined_example :
    ((feed_all lower idle halves).0 ++ (feed_all lower idle halves).1.buf ≡ codes "a <the b")
    × ((feed_all lower idle halves).1.in_think ≡ false)
feed_all-joined_example = feed_all-joined lower idle halves refl (unfold find_open in refl)

extract_message-strip_message_example :
    extract_message (text_part answer ∷ [])
    ≡ strip_message (text_part answer ∷ [])
      ++ thinking_parts (extract_parts (text_part answer ∷ [])).1
extract_message-strip_message_example = extract_message-strip_message (text_part answer ∷ [])
