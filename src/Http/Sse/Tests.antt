-- ===== src/Http/Sse/Tests.antt =====
-- Runs of the server-sent events, and concrete cases of the theorems.
use hypern.Http.Sse.{SseEvent, data_event, named, format}
use hypern.Http.Sse.Generator.{Round, Item, DictItem, event_of, collect}
use hypern.Http.Sse.Generator.Reading.{
  concat, collect-read, nothing, its_value, keys, its_text, ends, then_events,
}
use hypern.Http.Sse.Reader.{initial, read, read_lines, set_field}
use hypern.Http.Sse.RoundTrip.{read-format_all}
use hypern.Http.Sse.RoundTrip.Wire.{format_all}
use hypern.Prelude.Lines.{lines, ended_lines, IsOneLine}
use hypern.Prelude.Text.{split_once}
use hypern.Prelude.Options.{◌>>=◌}
use hypern.Prelude.{ℕ, zero, suc, String, ◌≡◌, refl, false, Option, none, some, List, [], ◌∷◌}

-- A printer of numbers in unary digits, with its reader.
abbrev pub unary : ℕ → String
unary zero = ""
unary (suc n) = String.◌∷◌ "1" (unary n)

abbrev pub count : String → Option ℕ
count String.[] = some 0
count (String.◌∷◌ c s) = elim (count s) [ none ↦ none | some n ↦ some (suc n) ]

pub count-unary : (n : ℕ) → count (unary n) ≡ some n
count-unary zero = refl
count-unary (suc n) = rw (count-unary n)

pub unary-IsOneLine : (n : ℕ) → IsOneLine (unary n)
unary-IsOneLine zero = (tt, tt)
unary-IsOneLine (suc n) = let (a, b) = unary-IsOneLine n in ((refl, a), (refl, b))

abbrev two_events : List SseEvent
two_events =
    record { id = some "7"; event = some "tick"; data_text = "a\nb"; retry = some 3 }
    ∷ data_event "c"
    ∷ []

format_test :
    format_all unary two_events ≡ "id: 7\nevent: tick\nretry: 111\ndata: a\ndata: b\n\ndata: c\n\n"
unfolding format lines
format_test = refl

-- A newline in a type ends the field: what follows is read as fields of its own.
injected_test :
    read count initial (format unary (named "x\ndata: forged\n" "real"))
    ≡ record { event_type = "x"; data_text = "forged"; last_event_id = "" }
      ∷ record { event_type = "message"; data_text = "real"; last_event_id = "" }
      ∷ []
unfolding format lines read read_lines ended_lines split_once set_field
injected_test = refl

-- An event with no data is not dispatched.
empty_test : read count initial (format unary (named "ping" "")) ≡ []
unfolding format lines read read_lines ended_lines split_once set_field
empty_test = refl

read-format_all_example :
    read count initial (format_all unary two_events)
    ≡ record { event_type = "tick"; data_text = "a\nb"; last_event_id = "7" }
      ∷ record { event_type = "message"; data_text = "c"; last_event_id = "7" }
      ∷ []
unfolding lines
read-format_all_example = read-format_all count unary count-unary unary-IsOneLine two_events (
  (
    ((refl, tt), (refl, tt)),
    refl,
    ((refl, (refl, (refl, (refl, tt)))), (refl, (refl, (refl, (refl, tt))))),
    (refl, (refl, (refl, tt))),
    refl,
    refl,
  ),
  ((tt, tt, tt, (refl, tt), refl, refl), tt),
)

abbrev three_rounds : List Round
three_rounds =
    record { item = Item.text "a"; interrupted = false }
    ∷ record {
      item = Item.dict (DictItem.value "b") DictItem.missing (DictItem.value "9") DictItem.missing;
      interrupted = false;
    }
    ∷ []

none_raises_test :
    event_of (Item.dict (DictItem.value "b") DictItem.raises DictItem.missing DictItem.missing)
    ≡ none
unfolding event_of
none_raises_test = refl

collect-read_example :
    (do chunks ← collect unary three_rounds; some (read count initial (concat chunks)))
    ≡ some (
        record { event_type = "message"; data_text = "a"; last_event_id = "" }
        ∷ record { event_type = "message"; data_text = "b"; last_event_id = "9" }
        ∷ [])
unfolding lines event_of
collect-read_example =
    collect-read unary count count-unary unary-IsOneLine three_rounds
      (some (
        data_event "a"
        ∷ record { id = some "9"; event = none; data_text = "b"; retry = none }
        ∷ []))
      (then_events its_text refl (then_events (keys its_value nothing its_value nothing) refl ends))
      (
        (tt, tt, tt, (refl, tt), refl, refl),
        ((((refl, tt), (refl, tt)), refl, tt, (refl, tt), refl, refl), tt),
      )
