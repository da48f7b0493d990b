-- ===== src/Realtime/Presence/Tests.antt =====
-- Tests of the tracker, and the theorems at concrete inputs.
use hypern.Prelude.{◌≡◌, refl, not, none, List, [], ◌∷◌, is_some, elem, string_eq, nat_eq}
use hypern.Prelude.Map
use hypern.Prelude.Map.All.{AllValues}
use hypern.Realtime.Presence.{
  PresenceTracker, Call, tracks, new, track, untrack, untrack_all, get, channels_of, evict_stale,
  flush_diff, list, total_clients, step, run,
}
use hypern.Realtime.Presence.Stale.{HasDistinctMembers, is_stale, get-evict_stale}
use hypern.Realtime.Presence.Index.{elem-channels_of-run, get-untrack_all-run}

presence : Unit {0}
unfolding step run track untrack untrack_all get channels_of evict_stale flush_diff list
    total_clients Map.insert Map.lookup Map.modify Map.remove Map.map_entries
presence = tt

abbrev calls : List Call
calls = tracks "chat" "ann" none 5 ∷ tracks "chat" "bob" none 9 ∷ tracks "news" "ann" none 9 ∷ []

abbrev busy : PresenceTracker
busy = run new calls

total_test : (total_clients busy ≡ 2) × (channels_of "ann" busy ≡ "chat" ∷ "news" ∷ [])
unfolding presence
total_test = (refl, refl)

-- A channel that is tracked twice stands twice on the client's list.
twice_test : channels_of "ann" (track "chat" "ann" none 10 busy).0 ≡ "chat" ∷ "news" ∷ "chat" ∷ []
unfolding presence
twice_test = refl

evict_test : (evict_stale 20 12 busy).1 ≡ ("chat", "ann") ∷ []
unfolding presence
evict_test = refl

other_channel_member_test :
    get "chat" "bob" (track "chat" "ann" none 30 busy).0 ≡ get "chat" "bob" busy
unfolding presence
other_channel_member_test = refl

elem-channels_of-run_example :
    elem "news" (channels_of "ann" busy) ≡ is_some (get "news" "ann" busy)
elem-channels_of-run_example = elem-channels_of-run calls "news" "ann"

get-untrack_all-run_example : get "news" "ann" (untrack_all "ann" busy).0 ≡ none
get-untrack_all-run_example = get-untrack_all-run calls "ann" "news" "ann"

busy-Distinct : Map.Distinct busy.channels × AllValues HasDistinctMembers busy.channels
unfolding presence
busy-Distinct = ((refl, (refl, tt)), ((refl, (refl, tt)), ((refl, tt), tt)))

get-evict_stale_test :
    get "chat" "bob" (evict_stale 20 12 busy).0
    ≡ Map.kept_if (λ i. not (is_stale 20 12 i)) (get "chat" "bob" busy)
get-evict_stale_test = get-evict_stale 20 12 busy "chat" "bob" busy-Distinct.1

abbrev present : PresenceTracker
present = (flush_diff "c" (track "c" "ann" none 1 new).0).0
