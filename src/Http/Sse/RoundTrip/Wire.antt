-- ===== src/Http/Sse/RoundTrip/Wire.antt =====
-- The lines that `SSEEvent::format` writes.
use Prim.Native.String
use Prim.Native.String.append
use text.Mathlib.TextLemmas.{append-nil as str_nil, append_assoc as str_assoc}
use hypern.Http.Sse.{SseEvent, field_line, optional_line, data_lines, shown, format}
use hypern.Prelude.Lines.{
  ends_newline, lines-AreOneLine, append-IsOneLine, append-AreOneLine, AreOneLine, IsOneLine, lines,
  ended, ended-append,
}
use hypern.Prelude.Text.{is_blank, IsWithout}
use hypern.Http.Sse.Reader.{Message, has_nul}
use hypern.Prelude.{
  ℕ, String, ◌≡◌, refl, ◌∙◌, false, Option, none, some, List, [], ◌∷◌, ◌++◌, if◌then◌else◌,
  or_default,
}

-- The lines for a field, at most one.
abbrev pub tagged : String → Option String → List String
tagged name none = []
tagged name (some value) = String.◌++◌ name value ∷ []

abbrev pub tagged_all : String → List String → List String
tagged_all name [] = []
tagged_all name (l ∷ ls) = String.◌++◌ name l ∷ tagged_all name ls

optional_line_lem :
    (name : String) (v : Option String) (out : String)
    → optional_line name v out ≡ String.◌++◌ out (ended (tagged name v))
optional_line_lem name none out = rw str_nil
optional_line_lem name (some v) out = simp (str_assoc, str_nil)

data_lines_lem :
    (ls : List String) (out : String)
    → data_lines ls out ≡ String.◌++◌ out (ended (tagged_all "data: " ls))
data_lines_lem [] out = rw str_nil
data_lines_lem (l ∷ ls) out = data_lines_lem ls (field_line "data: " l out) ∙ simp (str_assoc)

abbrev pub IsField : Option String → Type 0
IsField none = Unit
IsField (some v) = IsOneLine v

abbrev pub IsId : Option String → Type 0
IsId none = Unit
IsId (some v) = has_nul v ≡ false

-- What the format can carry: an id and a type on one line, no NUL in the id, data that is not empty
-- has no CR and does not end in LF.
abbrev pub IsPlain : SseEvent → Type 0
IsPlain e =
    IsField e.id
    × IsId e.id
    × IsField e.event
    × IsWithout b'\r' e.data_text
    × (is_blank e.data_text ≡ false)
    × (ends_newline e.data_text ≡ false)

-- No character of a tag ends a line.
plain_id : IsOneLine "id: "
plain_id = ((refl, (refl, (refl, (refl, tt)))), (refl, (refl, (refl, (refl, tt)))))

plain_event : IsOneLine "event: "
plain_event = (
  (refl, (refl, (refl, (refl, (refl, (refl, (refl, tt))))))),
  (refl, (refl, (refl, (refl, (refl, (refl, (refl, tt))))))),
)

plain_retry : IsOneLine "retry: "
plain_retry = (
  (refl, (refl, (refl, (refl, (refl, (refl, (refl, tt))))))),
  (refl, (refl, (refl, (refl, (refl, (refl, (refl, tt))))))),
)

plain_data : IsOneLine "data: "
plain_data = (
  (refl, (refl, (refl, (refl, (refl, (refl, tt)))))),
  (refl, (refl, (refl, (refl, (refl, (refl, tt)))))),
)

tagged-AreOneLine :
    (name : String) (v : Option String) → IsOneLine name → IsField v → AreOneLine (tagged name v)
tagged-AreOneLine name none h k = tt
tagged-AreOneLine name (some v) h k = (append-IsOneLine name v h k, tt)

tagged_all-AreOneLine :
    (name : String) (vs : List String)
    → IsOneLine name
    → AreOneLine vs
    → AreOneLine (tagged_all name vs)
tagged_all-AreOneLine name [] h k = tt
tagged_all-AreOneLine name (◌∷◌ v vs) h (k, ks) =
    (append-IsOneLine name v h k, tagged_all-AreOneLine name vs h ks)

-- The event as a client is to see it.
abbrev pub seen : SseEvent → String → Message
seen e last_id = record {
  event_type = if is_blank (or_default "" e.event) then "message" else or_default "" e.event;
  data_text = e.data_text;
  last_event_id = or_default last_id e.id;
}

abbrev pub all_seen : List SseEvent → String → List Message
all_seen [] last_id = []
all_seen (◌∷◌ e es) last_id = ◌∷◌ (seen e last_id) (all_seen es (or_default last_id e.id))

abbrev pub ArePlain : List SseEvent → Type 0
ArePlain [] = Unit
ArePlain (◌∷◌ e es) = IsPlain e × ArePlain es

module _ (to_string : ℕ → String) where
  -- `format` of each, one behind the other
  abbrev pub format_all : List SseEvent → String
  format_all [] = ""
  format_all (◌∷◌ e es) = String.◌++◌ (format to_string e) (format_all es)

  abbrev pub wire : SseEvent → List String
  wire e =
      tagged "id: " e.id
      ++ (tagged "event: " e.event
          ++ (tagged "retry: " (shown to_string e.retry)
              ++ (tagged_all "data: " (lines e.data_text) ++ "" ∷ [])))

  pub format-ended : (e : SseEvent) → format to_string e ≡ ended (wire e)
  unfolding format
  format-ended e =
      simp (optional_line_lem, data_lines_lem, ended-append, str_assoc, str_nil, append.nil)

  module _ (shown_line : (n : ℕ) → IsOneLine (to_string n)) where
    shown-IsField : (v : Option ℕ) → IsField (shown to_string v)
    shown-IsField none = tt
    shown-IsField (some n) = shown_line n

    pub wire-AreOneLine : (e : SseEvent) → IsPlain e → AreOneLine (wire e)
    wire-AreOneLine e (id_line, _, event_line, no_cr, _, _) =
        append-AreOneLine (tagged "id: " e.id) _ (tagged-AreOneLine "id: " e.id plain_id id_line) (
          append-AreOneLine (tagged "event: " e.event) _
            (tagged-AreOneLine "event: " e.event plain_event event_line)
            (append-AreOneLine (tagged "retry: " (shown to_string e.retry)) _
              (tagged-AreOneLine "retry: " (shown to_string e.retry) plain_retry
                (shown-IsField e.retry))
              (append-AreOneLine (tagged_all "data: " (lines e.data_text)) (◌∷◌ "" [])
                (tagged_all-AreOneLine "data: " (lines e.data_text) plain_data
                  (lines-AreOneLine e.data_text no_cr))
                (((tt, tt), tt)))))
