-- ===== src/Http/Sse.antt =====
-- src/http/streaming.rs, `SSEEvent` and `collect_sse_from_generator`. Texts stand for their bytes;
-- `to_string` prints a number.
pub mod Reader
pub mod Generator
pub mod Tests
pub mod RoundTrip
use Prim.Native.String
use hypern.Prelude.Lines.{lines}
use hypern.Prelude.{ℕ, String, Option, none, some, List, [], ◌∷◌}

pub record SseEvent : Type 0 where
  pub id : Option String
  pub event : Option String
  pub data_text : String
  pub retry : Option ℕ

-- SSEEvent::new
abbrev pub new : String → Option String → Option String → Option ℕ → SseEvent
new bytes id event retry = record { id = id; event = event; data_text = bytes; retry = retry }

-- SSEEvent::data
abbrev pub data_event : String → SseEvent
data_event bytes = record { id = none; event = none; data_text = bytes; retry = none }

-- SSEEvent::named
abbrev pub named : String → String → SseEvent
named event bytes = record { id = none; event = some event; data_text = bytes; retry = none }

-- The line that `format` pushes for a field.
abbrev pub field_line : String → String → String → String
field_line name value output = String.◌++◌ (String.◌++◌ (String.◌++◌ output name) value) "\n"

abbrev pub optional_line : String → Option String → String → String
optional_line name none output = output
optional_line name (some value) output = field_line name value output

-- The loop over the lines of the data.
abbrev pub data_lines : List String → String → String
data_lines [] output = output
data_lines (line ∷ rest) output = data_lines rest (field_line "data: " line output)

-- SSEEvent::comment
unfoldable pub comment : String → String
comment text = String.◌++◌ ": " (String.◌++◌ text "\n\n")

module _ (to_string : ℕ → String) where
  abbrev pub shown : Option ℕ → Option String
  shown none = none
  shown (some n) = some (to_string n)

  unfoldable pub format : SseEvent → String
  format e =
      let with_id = optional_line "id: " e.id "" in
      let with_event = optional_line "event: " e.event with_id in
      let with_retry = optional_line "retry: " (shown e.retry) with_event in
      String.◌++◌ (data_lines (lines e.data_text) with_retry) "\n"
