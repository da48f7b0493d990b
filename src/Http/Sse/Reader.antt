-- ===== src/Http/Sse/Reader.antt =====
-- The receiving side of server-sent events, as the HTML standard describes it for event streams:
-- an independent description to check `SSEEvent::format` against.
use Prim.Native.Char.{code}
use Prim.Native.String.{[], ◌∷◌}
use hypern.Prelude.Lines.{join_lines, ended_lines}
use hypern.Prelude.Text.{is_blank, split_once}
use hypern.Prelude.{
  ℕ, String, Bool, false, ◌||◌, Option, none, some, List, ◌++◌, eqb, if◌then◌else◌, ◌==◌, is_empty,
  string_eq, nat_eq,
}

-- A dispatched event: its type, its data and the last event id.
pub record Message : Type 0 where
  pub event_type : String
  pub data_text : String
  pub last_event_id : String

pub record Reader : Type 0 where
  pub event_type : String
  -- the data buffer: the values so far, an LF after each
  pub data_lines : List String
  pub last_event_id : String
  pub reconnection_time : Option ℕ

abbrev strip_space : String → String
strip_space [] = ""
strip_space (c ∷ s) = if eqb (code c) b' ' then s else c ∷ s

abbrev pub has_nul : String → Bool
has_nul [] = false
has_nul (c ∷ s) = eqb (code c) 0 || has_nul s

-- What a dispatch leaves: the type and the data start anew.
abbrev pub reset : Reader → Reader
reset r = record r { event_type = ""; data_lines = List.[] }

abbrev pub initial : Reader
initial = record {
  event_type = "";
  data_lines = List.[];
  last_event_id = "";
  reconnection_time = none;
}

abbrev pub message : Reader → Message
message r = record {
  event_type = if is_blank r.event_type then "message" else r.event_type;
  data_text = join_lines r.data_lines;
  last_event_id = r.last_event_id;
}

-- `parse_digits` is none on a text that is not all digits.
module _ (parse_digits : String → Option ℕ) where
  unfoldable pub set_field : String → String → Reader → Reader
  set_field name value r =
      if name == "event"
      then record r { event_type = value }
      else if name == "data"
      then record r { data_lines = r.data_lines ++ List.◌∷◌ value List.[] }
      else if name == "id"
      then (if has_nul value then r else record r { last_event_id = value })
      else if name == "retry"
      then elim (parse_digits value) [ none ↦ r | some n ↦ record r { reconnection_time = some n } ]
      else r

  -- A line without a colon is a field's name; with the colon in front it is a comment.
  abbrev pub read_parts : String → Option (String × String) → Reader → Reader
  read_parts l none r = set_field l "" r
  read_parts l (some (name, value)) r =
      if is_blank name then r else set_field name (strip_space value) r

  abbrev pub read_line : String → Reader → Reader
  read_line l = read_parts l (split_once b':' l)

  unfoldable pub read_lines : Reader → List String → List Message
  read_lines r List.[] = List.[]
  read_lines r (List.◌∷◌ l ls) =
      let undispatched = read_lines (reset r) ls in
      let further = read_lines (read_line l r) ls in
      if is_blank l
      then (if is_empty r.data_lines then undispatched else List.◌∷◌ (message r) undispatched)
      else further

  unfoldable pub read : Reader → String → List Message
  read r s = read_lines r (ended_lines s)
