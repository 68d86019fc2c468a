-- ===== src/Wire/Events/Framed.antt =====
-- internal/server/chat.go: the events that a client takes from a streamed answer.
use smolllm_server.Base.{
  ◌≡◌, refl, ap, ◌∙◌, true, false, ◌||◌, List, [], ◌∷◌, ◌++◌, append_assoc, append-nil, Text, codes,
  eqb, has_prefix, All, arith,
}
use smolllm_server.Wire.Encode.Lines.{is_plain}
use smolllm_server.Wire.Events.{write_raw, write_all, lines_of, events_of, read_events}

lines_of-line :
    (cur w s : Text) → is_plain w ≡ true → lines_of cur (w ++ (10 ∷ s)) ≡ (cur ++ w) ∷ lines_of [] s
unfolding lines_of
lines_of-line cur [] s h = rw append-nil refl
lines_of-line cur (c ∷ w) s h =
    let inner : (eqb c 10 || eqb c 13) ≡ false = ground arith in
    rw inner (
      lines_of-line (cur ++ (c ∷ [])) w s (ground arith)
      ∙ ap (λ l. l ∷ lines_of [] s) (append_assoc cur (c ∷ []) w))

-- one event, before the rest of the stream
read_events-write_raw :
    (p s : Text) → is_plain p ≡ true → read_events (write_raw p s) ≡ p ∷ read_events s
unfolding read_events write_raw lines_of events_of has_prefix
read_events-write_raw p s h = rw (lines_of-line (codes "data: ") p (10 ∷ s) h) refl

pub read_events-write_all :
    (ps : List Text) → All (λ p. is_plain p ≡ true) ps → read_events (write_all ps) ≡ ps
unfolding write_all read_events lines_of events_of
read_events-write_all [] h = refl
read_events-write_all (p ∷ ps) (h, hs) =
    read_events-write_raw p (write_all ps) h ∙ ap (λ l. p ∷ l) (read_events-write_all ps hs)
