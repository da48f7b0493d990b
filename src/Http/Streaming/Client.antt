-- ===== src/Http/Streaming/Client.antt =====
-- What the client of a stream sees: the events that the server's handles had accepted.
use Prim.Native.String
use Prim.Native.String.append
use hypern.Prelude.Lines.{AreOneLine, IsOneLine, ended, ended_lines, ended_lines-ended}
use hypern.Prelude.Text.{split_once}
use hypern.Http.Mpsc.{Mpsc, Laws}
use hypern.Http.Sse.{SseEvent, comment}
use hypern.Http.Sse.Generator.Reading.{concat}
use hypern.Http.Sse.Reader.{initial, read, read_lines}
use hypern.Http.Sse.RoundTrip.{between, time_after, read_lines-format}
use hypern.Http.Sse.RoundTrip.Wire.{seen, ArePlain, all_seen}
use hypern.Http.Streaming.Delivery.{run-start-IsFaithful}
use hypern.Http.Streaming.World.{Call, Sent, event, comment_line, run, start, chunks}
use hypern.Prelude.{
  ℕ, zero, suc, String, ◌≡◌, refl, sym, ap, ◌∙◌, Option, none, some, List, [], ◌∷◌, ◌++◌,
  or_default, length, take,
}

abbrev pub events : List Sent → List SseEvent
events [] = []
events (event e ∷ ss) = e ∷ events ss
events (comment_line ∷ ss) = events ss

take-append {ℓ} : {A : Type ℓ} (xs ys : List A) → take (length xs) (xs ++ ys) ≡ xs
take-append [] ys = refl
take-append (x ∷ xs) ys = rw (take-append xs ys)

comment-ended : comment "keepalive" ≡ ended (": keepalive" ∷ "" ∷ [])
unfolding comment
comment-ended = refl

module _ (to_string : ℕ → String) where
  take-chunks :
      (n : ℕ) (ss : List Sent) → take n (chunks to_string ss) ≡ chunks to_string (take n ss)
  take-chunks zero ss = refl
  take-chunks (suc n) [] = refl
  take-chunks (suc n) (s ∷ ss) = rw (take-chunks n ss)

  module _ (parse_digits : String → Option ℕ) (back : (n : ℕ) → parse_digits (to_string n) ≡ some n)
      (line : (n : ℕ) → IsOneLine (to_string n)) where
    keepalive-AreOneLine : AreOneLine (": keepalive" ∷ "" ∷ [])
    keepalive-AreOneLine = (
      (
        (refl, (refl, (refl, (refl, (refl, (refl, (refl, (refl, (refl, (refl, (refl, tt))))))))))),
        (refl, (refl, (refl, (refl, (refl, (refl, (refl, (refl, (refl, (refl, (refl, tt))))))))))),
      ),
      (((tt, tt), tt)),
    )

    -- A keepalive is read as a comment.
    read_lines-comment :
        (last_id : String) (time : Option ℕ) (ls : List String)
        → read_lines parse_digits
            (between parse_digits to_string back last_id time)
            (": keepalive" ∷ "" ∷ ls)
          ≡ read_lines parse_digits (between parse_digits to_string back last_id time) ls
    unfolding read_lines split_once
    read_lines-comment last_id time ls = refl

    read_lines-chunks :
        (ss : List Sent) (last_id : String) (time : Option ℕ)
        → ArePlain (events ss)
        → read_lines parse_digits
            (between parse_digits to_string back last_id time)
            (ended_lines (concat (chunks to_string ss)))
          ≡ all_seen (events ss) last_id
    unfolding read_lines ended_lines
    read_lines-chunks [] last_id time w = refl
    read_lines-chunks (event e ∷ ss) last_id time (w, ws) =
        read_lines-format parse_digits to_string back line e last_id time
          (concat (chunks to_string ss)) w
        ∙ ap (◌∷◌ (seen e last_id)) (
            read_lines-chunks ss (or_default last_id e.id)
              (time_after parse_digits to_string back time e.retry) ws)
    read_lines-chunks (comment_line ∷ ss) last_id time w =
        ap
          (λ x.
            read_lines parse_digits (between parse_digits to_string back last_id time)
              (ended_lines (String.◌++◌ x (concat (chunks to_string ss)))))
          comment-ended
        ∙ ap (read_lines parse_digits (between parse_digits to_string back last_id time)) (
            ended_lines-ended (": keepalive" ∷ "" ∷ []) (concat (chunks to_string ss))
              keepalive-AreOneLine)
        ∙ read_lines-comment last_id time (ended_lines (concat (chunks to_string ss)))
        ∙ read_lines-chunks ss last_id time w

    events_plain : (n : ℕ) (ss : List Sent) → ArePlain (events ss) → ArePlain (events (take n ss))
    events_plain zero ss w = tt
    events_plain (suc n) [] w = tt
    events_plain (suc n) (event e ∷ ss) (w, ws) = (w, events_plain n ss ws)
    events_plain (suc n) (comment_line ∷ ss) w = events_plain n ss w

    module _ (T : Mpsc String) (L : Laws T) where
      -- Where the accepted events are plain (each with an id and a type of one line, no NUL in the id,
      -- and data that is not empty, has no CR and does not end in a newline), the client of a stream
      -- that reads what the body delivered so far sees the first of the accepted events, in order and
      -- as they were sent; keepalives do not show. Printed numbers are lines that are read back, and the
      -- channel keeps the laws of tokio's.
      pub read-run :
          (size : ℕ) (cs : List Call)
          → ArePlain (events (run T to_string cs (start T to_string size)).accepted)
          → read parse_digits initial
              (concat (run T to_string cs (start T to_string size)).delivered)
            ≡ all_seen
                (events (
                  take
                    (length (run T to_string cs (start T to_string size)).delivered)
                    (run T to_string cs (start T to_string size)).accepted))
                ""
      unfolding read
      read-run size cs plain =
          let w = run T to_string cs (start T to_string size) in
          let (same, _, _) = run-start-IsFaithful T to_string L size cs in
          let first : w.delivered ≡ chunks to_string (take (length w.delivered) w.accepted) =
            sym (take-append w.delivered (L.queued w.shared.sender))
            ∙ ap (take (length w.delivered)) same
            ∙ take-chunks (length w.delivered) w.accepted in
          ap (λ x. read_lines parse_digits initial (ended_lines (concat x))) first
          ∙ read_lines-chunks (take (length w.delivered) w.accepted) "" none
              (events_plain (length w.delivered) w.accepted plain)
