-- ===== src/Wire/Events.antt =====
-- internal/server/chat.go: `writeRaw` and `writeChunk`, the text of a streamed answer, and how a client
-- takes it apart into events.
pub mod Framed
use smolllm_server.Base.{
  ◌||◌, Option, none, some, List, [], ◌∷◌, ◌++◌, Text, codes, eqb, drop, has_prefix, if◌then◌else◌,
  and_then,
}
use smolllm_server.Chat.{Frame, chunk, done}
use smolllm_server.Wire.{marshal_chunk, chunk_json}
use smolllm_server.Wire.Encode.{json_text}

-- `writeRaw`, before the text that is written afterwards
unfoldable pub write_raw : Text → Text → Text
write_raw payload rest = codes "data: " ++ (payload ++ (10 ∷ 10 ∷ rest))

unfoldable pub write_all : List Text → Text
unfolding write_raw
write_all [] = []
write_all (p ∷ ps) = write_raw p (write_all ps)

-- what a frame is written as; `writeChunk` writes nothing for a frame that cannot be encoded
unfoldable pub payload : Frame → Option Text
unfolding json_text
payload (chunk c) = and_then (marshal_chunk c) (λ w. some (json_text (chunk_json w)))
payload done = some (codes "[DONE]")

abbrev pub with_payload : Option Text → List Text → List Text
with_payload none ps = ps
with_payload (some p) ps = p ∷ ps

unfoldable pub payloads : List Frame → List Text
unfolding payload
payloads [] = []
payloads (f ∷ fs) = with_payload (payload f) (payloads fs)

-- the body of a streamed answer
abbrev pub stream_text : List Frame → Text
stream_text fs = write_all (payloads fs)

-- The lines of a stream of server-sent events, after the part of the first one that is read: a line ends
-- at a newline or a carriage return.
unfoldable pub lines_of : Text → Text → List Text
lines_of cur [] = []
lines_of cur (c ∷ s) =
    let ended = cur ∷ lines_of [] s in
    let longer = lines_of (cur ++ (c ∷ [])) s in if eqb c 10 || eqb c 13 then ended else longer

abbrev pub data_prefix : Text
data_prefix = codes "data:"

-- the value of a field, without one space before it
abbrev pub value_of : Text → Text
value_of [] = []
value_of (c ∷ s) = if eqb c 32 then s else c ∷ s

abbrev pub joined : Option Text → Text → Option Text
joined none v = some v
joined (some d) v = some (d ++ (10 ∷ v))

abbrev pub dispatched : Option Text → List Text → List Text
dispatched none rest = rest
dispatched (some d) rest = d ∷ rest

-- the events of some lines, with the data that is collected: a blank line ends an event, and what is no
-- data is left out
unfoldable pub events_of : Option Text → List Text → List Text
events_of d [] = []
events_of d ([] ∷ ls) = dispatched d (events_of none ls)
events_of d ((c ∷ l) ∷ ls) =
    events_of (if has_prefix (c ∷ l) data_prefix then joined d (value_of (drop 5 (c ∷ l))) else d)
      ls

-- the data of each event of a stream
unfoldable pub read_events : Text → List Text
unfolding lines_of events_of
read_events s = events_of none (lines_of [] s)
