-- ===== src/Http/Streaming/Tests.antt =====
-- Runs of a stream over the sample channel, and concrete cases of the theorems.
use hypern.Http.Mpsc.Sample.{queue, queue_laws}
use hypern.Http.Sse.{data_event, format}
use hypern.Http.Sse.Generator.Reading.{concat}
use hypern.Http.Sse.Reader.{initial, read}
use hypern.Http.Sse.Tests.{unary, count, count-unary, unary-IsOneLine}
use hypern.Http.Streaming.{send, keepalive, poll_next}
use hypern.Http.Streaming.Client.{read-run}
use hypern.Http.Streaming.Closing.{IsFrozen, run-IsFrozen}
use hypern.Http.Streaming.Delivery.{IsFaithful, run-start-IsFaithful}
use hypern.Http.Streaming.World.{Call, World, step, run, start}
use hypern.Prelude.Lines.{lines}
use hypern.Prelude.{String, ◌≡◌, refl, List, [], ◌∷◌}

-- Two handles; the third send finds the buffer full, and the keepalive goes unseen.
abbrev calls : List Call
calls =
    Call.sends 0 (data_event "a")
    ∷ Call.clones 0
    ∷ Call.keeps_alive 1
    ∷ Call.sends 1 (data_event "lost")
    ∷ Call.polls
    ∷ Call.polls
    ∷ Call.sends 1 (data_event "b")
    ∷ Call.polls
    ∷ Call.sends 0 (data_event "late")
    ∷ []

abbrev after_calls : World (queue String).Chan
after_calls = run (queue String) unary calls (start (queue String) unary 2)

counts_test : after_calls.counts ≡ 2 ∷ 2 ∷ []
unfolding run step send keepalive poll_next format lines
counts_test = refl

run-start-IsFaithful_example : IsFaithful (queue String) unary (queue_laws String) 2 after_calls
run-start-IsFaithful_example = run-start-IsFaithful (queue String) unary (queue_laws String) 2 calls

read-run_example :
    read count initial (concat after_calls.delivered)
    ≡ record { event_type = "message"; data_text = "a"; last_event_id = "" }
      ∷ record { event_type = "message"; data_text = "b"; last_event_id = "" }
      ∷ []
unfolding run step send keepalive poll_next format lines
read-run_example =
    read-run unary count count-unary unary-IsOneLine (queue String) (queue_laws String) 2 calls (
      (tt, tt, tt, (refl, tt), refl, refl),
      (
        (tt, tt, tt, (refl, tt), refl, refl),
        ((tt, tt, tt, (refl, (refl, (refl, (refl, tt)))), refl, refl), tt),
      ),
    )

-- The last event was accepted and never arrives.
run-IsFrozen_example :
    IsFrozen (queue String) unary (step (queue String) unary (Call.closes 1) after_calls) (
      run
        (queue String)
        unary
        (Call.polls ∷ Call.sends 0 (data_event "x") ∷ [])
        (step (queue String) unary (Call.closes 1) after_calls))
unfolding run step send keepalive poll_next format lines
run-IsFrozen_example =
    run-IsFrozen (queue String) unary (Call.polls ∷ Call.sends 0 (data_event "x") ∷ [])
      (step (queue String) unary (Call.closes 1) after_calls) refl
