-- ===== src/Http/Sse/RoundTrip.antt =====
-- A client reads the events of a formatted stream.
pub mod Wire
use Prim.Native.String
use Prim.Native.String.append
use Prim.Native.String.{[], ◌∷◌}
use text.Mathlib.TextLemmas.{append_assoc as str_assoc}
use hypern.Http.Sse.{SseEvent, shown, format}
use hypern.Http.Sse.Reader.{
  Message, Reader, set_field, read_line, read_lines, message, reset, read, has_nul,
}
use hypern.Http.Sse.RoundTrip.Wire.{
  seen, all_seen, ArePlain, format_all, IsField, IsId, IsPlain, wire-AreOneLine, tagged, tagged_all,
  wire, format-ended,
}
use hypern.Prelude.Lines.{
  join_lines-lines, is_empty-lines, lines, ended, ended_lines, ended_lines-ended, AreOneLine,
  IsOneLine, lines-AreOneLine, append-IsOneLine, append-AreOneLine, join_lines,
}
use hypern.Prelude.Text.{is_blank, IsWithout, split_once, split_once-append}
use hypern.Http.Sse.Reader.{initial}
use hypern.Prelude.{
  ℕ, String, ◌≡◌, refl, ap, ◌∙◌, false, Option, none, some, List, ◌++◌, append-nil, append_assoc,
  arith, or_default, is_empty,
}

append-is_blank : (name v : String) → is_blank name ≡ false → is_blank (String.◌++◌ name v) ≡ false
append-is_blank [] v ne = ground arith
append-is_blank (c ∷ name) v ne = rw (append.cons c name v) refl

module _ (parse_digits : String → Option ℕ) where
  read_line-colon :
      (name v : String) (r : Reader)
      → IsWithout b':' name
      → is_blank name ≡ false
      → read_line parse_digits (String.◌++◌ name (String.◌++◌ ": " v)) r
        ≡ set_field parse_digits name v r
  read_line-colon name v r w ne =
      let parts : split_once b':' (String.◌++◌ name (":" ∷ " " ∷ v)) ≡ some (name, " " ∷ v) =
        split_once-append b':' ":" name (" " ∷ v) refl w in
      rw (append.cons ":" " " v, append.cons " " "" v, append.nil v, parts, ne)

  -- A line for a field, behind it any lines.
  read_lines-cons :
      (name v : String) (r : Reader) (ls : List String)
      → IsWithout b':' name
      → is_blank name ≡ false
      → read_lines parse_digits r (List.◌∷◌ (String.◌++◌ (String.◌++◌ name ": ") v) ls)
        ≡ read_lines parse_digits (set_field parse_digits name v r) ls
  unfolding read_lines
  read_lines-cons name v r ls w ne =
      rw (str_assoc, append-is_blank name (String.◌++◌ ": " v) ne, read_line-colon name v r w ne)

  -- The value goes into the buffer; the lines of the data one by one.
  read_lines-data :
      (vs : List String) (r : Reader) (ls : List String)
      → read_lines parse_digits r (tagged_all "data: " vs ++ ls)
        ≡ read_lines parse_digits (record r { data_lines = r.data_lines ++ vs }) ls
  unfolding set_field
  read_lines-data List.[] r ls = rw (append-nil)
  read_lines-data (List.◌∷◌ v vs) r ls =
      read_lines-cons "data" v r (tagged_all "data: " vs ++ ls) (refl, (refl, (refl, (refl, tt))))
        refl
      ∙ read_lines-data vs (record r { data_lines = r.data_lines ++ List.◌∷◌ v List.[] }) ls
      ∙ rw append_assoc

  read_lines-event :
      (v : Option String) (r : Reader) (ls : List String)
      → read_lines parse_digits r (tagged "event: " v ++ ls)
        ≡ read_lines parse_digits (record r { event_type = or_default r.event_type v }) ls
  unfolding set_field
  read_lines-event none r ls = refl
  read_lines-event (some v) r ls =
      read_lines-cons "event" v r ls (refl, (refl, (refl, (refl, (refl, tt))))) refl

  read_lines-id :
      (v : Option String) (r : Reader) (ls : List String)
      → IsId v
      → read_lines parse_digits r (tagged "id: " v ++ ls)
        ≡ read_lines parse_digits (record r { last_event_id = or_default r.last_event_id v }) ls
  unfolding set_field
  read_lines-id none r ls w = refl
  read_lines-id (some v) r ls w =
      read_lines-cons "id" v r ls (refl, (refl, tt)) refl ∙ rw (w, set_field) refl

  module _ (to_string : ℕ → String)
      (shown_back : (n : ℕ) → parse_digits (to_string n) ≡ some n) where
    abbrev pub time_after : Option ℕ → Option ℕ → Option ℕ
    time_after old none = old
    time_after old (some n) = some n

    read_lines-retry :
        (v : Option ℕ) (r : Reader) (ls : List String)
        → read_lines parse_digits r (tagged "retry: " (shown to_string v) ++ ls)
          ≡ read_lines parse_digits
              (record r { reconnection_time = time_after r.reconnection_time v })
              ls
    unfolding set_field
    read_lines-retry none r ls = refl
    read_lines-retry (some n) r ls =
        read_lines-cons "retry" (to_string n) r ls (refl, (refl, (refl, (refl, (refl, tt))))) refl
        ∙ rw (shown_back n, set_field) refl

    abbrev pub between : String → Option ℕ → Reader
    between last_id time = record {
      event_type = "";
      data_lines = List.[];
      last_event_id = last_id;
      reconnection_time = time;
    }

    read_lines-blank :
        (r : Reader) (ls : List String)
        → is_empty r.data_lines ≡ false
        → read_lines parse_digits r (List.◌∷◌ "" ls)
          ≡ List.◌∷◌ (message r) (read_lines parse_digits (reset r) ls)
    unfolding read_lines
    read_lines-blank r ls e = rw (e, read_lines) refl

    read_lines-wire :
        (e : SseEvent) (last_id : String) (time : Option ℕ) (ls : List String)
        → IsPlain e
        → read_lines parse_digits (between last_id time) (wire to_string e ++ ls)
          ≡ List.◌∷◌ (seen e last_id) (
              read_lines parse_digits
                (between (or_default last_id e.id) (time_after time e.retry))
                ls)
    read_lines-wire e last_id time ls (_, w, _, no_cr, ne, unended) =
        ap (read_lines parse_digits (between last_id time)) (simp append_assoc)
        ∙ read_lines-id e.id _ _ w
        ∙ read_lines-event e.event _ _
        ∙ read_lines-retry e.retry _ _
        ∙ read_lines-data (lines e.data_text) _ _
        ∙ read_lines-blank _ ls (is_empty-lines e.data_text ne)
        ∙ rw (join_lines-lines e.data_text no_cr unended)

    module _ (shown_line : (n : ℕ) → IsOneLine (to_string n)) where
      pub read_lines-format :
          (e : SseEvent) (last_id : String) (time : Option ℕ) (s : String)
          → IsPlain e
          → read_lines parse_digits
              (between last_id time)
              (ended_lines (String.◌++◌ (format to_string e) s))
            ≡ List.◌∷◌ (seen e last_id) (
                read_lines parse_digits
                  (between (or_default last_id e.id) (time_after time e.retry))
                  (ended_lines s))
      read_lines-format e last_id time s w =
          rw
            (
              format-ended to_string e,
              ended_lines-ended (wire to_string e) s (wire-AreOneLine to_string shown_line e w),
            )
            (read_lines-wire e last_id time (ended_lines s) w)

      read_lines-format_all :
          (es : List SseEvent) (last_id : String) (time : Option ℕ)
          → ArePlain es
          → read_lines parse_digits (between last_id time) (ended_lines (format_all to_string es))
            ≡ all_seen es last_id
      unfolding read_lines ended_lines
      read_lines-format_all List.[] last_id time w = refl
      read_lines-format_all (List.◌∷◌ e es) last_id time (w, ws) =
          read_lines-format e last_id time (format_all to_string es) w
          ∙ ap (List.◌∷◌ (seen e last_id))
              (read_lines-format_all es (or_default last_id e.id) (time_after time e.retry) ws)

      -- A client that reads formatted events, one behind the other, sees each with its type, its data and
      -- the last id, given ids and types on one line, no NUL in an id, and data that is not empty, has no
      -- CR and does not end in LF.
      pub read-format_all :
          (es : List SseEvent)
          → ArePlain es
          → read parse_digits initial (format_all to_string es) ≡ all_seen es ""
      unfolding read
      read-format_all es w = read_lines-format_all es "" none w
