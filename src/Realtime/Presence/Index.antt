-- ===== src/Realtime/Presence/Index.antt =====
-- The two maps of the tracker agree: a channel is on a client's list exactly when the client is
-- present in the channel.
use hypern.Prelude.{
  ℕ, String, ◌≡◌, refl, sym, ap, ◌∙◌, inl, inr, Option, none, some, List, [], ◌∷◌, arith, eq_iff,
  if◌then◌else◌, Option-cases, ◌==◌, is_some, or_default, elem, string_eq, nat_eq,
}
use hypern.Prelude.Map
use hypern.Prelude.Map.{
  Map, Distinct, lookup-modify, insert-Distinct, remove-Distinct, modify-Distinct,
  map_entries-Distinct,
}
use hypern.Prelude.Map.All.{
  AllValues, insert-AllValues, remove-AllValues, modify-AllValues, map_entries-AllValues,
}
use hypern.Realtime.Presence.{
  PresenceInfo, ChannelPresence, PresenceTracker, new, new_channel, new_info, add_member,
  queue_join, track, leave, drop_unused, untrack, leave_each, untrack_all, get, update, touch,
  flushed, flush_diff, channels_of, stale_ids, remove_each, evict_stale, clear, Call, tracks,
  untracks, leaves_all, updates, touches, flushes, evicts, clears, step, run,
}
use hypern.Realtime.Presence.Lookup.{
  listed, get-track, get-untrack, get-untrack_all, member-flush, listed-track, listed-untrack,
  listed-untrack_all, listed-channels_of, get-update, get-touch,
}
use hypern.Realtime.Presence.Stale.{
  HasDistinctMembers, get-evict_stale, has_pair-evict_stale, listed-evict_stale,
}

abbrev pub HasDistinctKeys : PresenceTracker → Type 0
HasDistinctKeys t = Distinct t.channels × AllValues HasDistinctMembers t.channels

leave-HasDistinctMembers :
    (id : String) (cp : ChannelPresence) → HasDistinctMembers cp → HasDistinctMembers (leave id cp)
leave-HasDistinctMembers id cp d = ground (arith, remove-Distinct id cp.members d)

leave_each-HasDistinctKeys :
    (id : String) (cs : List String) (m : Map String ChannelPresence)
    → Distinct m
    → AllValues HasDistinctMembers m
    → Distinct (leave_each id cs m) × AllValues HasDistinctMembers (leave_each id cs m)
unfolding leave_each
leave_each-HasDistinctKeys id [] m d a = (d, a)
leave_each-HasDistinctKeys id (c ∷ cs) m d a =
    leave_each-HasDistinctKeys id cs (Map.modify c (leave id) m) (modify-Distinct c (leave id) m d)
      (modify-AllValues HasDistinctMembers c (leave id) m (leave-HasDistinctMembers id) a)

remove_each-Distinct :
    (ids : List String) (m : Map String PresenceInfo) → Distinct m → Distinct (remove_each ids m)
unfolding remove_each
remove_each-Distinct [] m d = d
remove_each-Distinct (i ∷ ids) m d =
    remove_each-Distinct ids (Map.remove i m) (remove-Distinct i m d)

track-HasDistinctKeys :
    (channel id : String) (metadata : Option (Map String String)) (now : ℕ) (t : PresenceTracker)
    → HasDistinctKeys t
    → HasDistinctKeys (track channel id metadata now t).0
unfolding track
track-HasDistinctKeys channel id metadata now t (d, a) = (
  modify-Distinct channel (queue_join info) entered (insert-Distinct channel entry t.channels d),
  modify-AllValues HasDistinctMembers channel (queue_join info) entered (λ cp h. h)
      (insert-AllValues HasDistinctMembers channel entry t.channels
        (insert-Distinct id info old.members (old_distinct (Map.lookup channel t.channels) refl))
        a),
)
  where
    info : PresenceInfo
    info = new_info id channel metadata now

    old : ChannelPresence
    old = or_default new_channel (Map.lookup channel t.channels)

    entry : ChannelPresence
    entry = add_member id info old

    entered : Map String ChannelPresence
    entered = Map.insert channel entry t.channels

    old_distinct :
        (o : Option ChannelPresence)
        → Map.lookup channel t.channels ≡ o
        → HasDistinctMembers (or_default new_channel o)
    old_distinct none e = tt
    old_distinct (some cp) e = Map.All.AllValues-lookup HasDistinctMembers channel t.channels a e

drop_unused-HasDistinctKeys :
    (channel : String) (m : Map String ChannelPresence)
    → Distinct m
    → AllValues HasDistinctMembers m
    → Distinct (drop_unused channel m) × AllValues HasDistinctMembers (drop_unused channel m)
unfolding drop_unused
drop_unused-HasDistinctKeys channel m d a =
    ground (arith, remove-Distinct channel m d, remove-AllValues HasDistinctMembers channel m a)

step-HasDistinctKeys :
    (t : PresenceTracker) (c : Call) → HasDistinctKeys t → HasDistinctKeys (step t c)
unfolding step untrack untrack_all update touch flush_diff evict_stale clear
step-HasDistinctKeys t (tracks channel id metadata now) v =
    track-HasDistinctKeys channel id metadata now t v
step-HasDistinctKeys t (untracks channel id) (d, a) =
    drop_unused-HasDistinctKeys channel (Map.modify channel (leave id) t.channels)
      (modify-Distinct channel (leave id) t.channels d)
      (modify-AllValues HasDistinctMembers channel (leave id) t.channels
        (leave-HasDistinctMembers id) a)
step-HasDistinctKeys t (leaves_all id) (d, a) =
    elim (Option-cases (Map.lookup id t.client_channels)) [
      | inl e ↦ rw (e, step, untrack_all) (d, a)
      | inr (cs, e) ↦ rw (e, step, untrack_all) (leave_each-HasDistinctKeys id cs t.channels d a)
    ]
step-HasDistinctKeys t (updates channel id metadata now) (d, a) = (
  modify-Distinct channel _ t.channels d,
  modify-AllValues HasDistinctMembers channel _ t.channels
      (λ cp h. modify-Distinct id _ cp.members h) a,
)
step-HasDistinctKeys t (touches channel id now) (d, a) = (
  modify-Distinct channel _ t.channels d,
  modify-AllValues HasDistinctMembers channel _ t.channels
      (λ cp h. modify-Distinct id _ cp.members h) a,
)
step-HasDistinctKeys t (flushes channel) (d, a) =
    elim (Option-cases (Map.lookup channel t.channels)) [
      | inl e ↦ rw (e, step, flush_diff) (d, a)
      | inr (cp, e) ↦
          rw (e, step, flush_diff)
            (
              modify-Distinct channel flushed t.channels d,
              modify-AllValues HasDistinctMembers channel flushed t.channels (λ cp h. h) a,
            )
    ]
step-HasDistinctKeys t (evicts now timeout) (d, a) = (
  map_entries-Distinct _ t.channels d,
  map_entries-AllValues HasDistinctMembers _ t.channels
      (λ _ cp h. remove_each-Distinct (stale_ids now timeout cp.members) cp.members h) a,
)
step-HasDistinctKeys t clears v = (tt, tt)

-- A channel is on a client's list exactly when the client is present in it.
abbrev pub IsIndexed : PresenceTracker → Type 0
IsIndexed t = (j k : String) → listed j k t.client_channels ≡ is_some (get j k t)

step-IsIndexed :
    (t : PresenceTracker) (c : Call) → HasDistinctKeys t → IsIndexed t → IsIndexed (step t c)
unfolding step update touch flush_diff
step-IsIndexed t (tracks channel id metadata now) v h j k = ground (
  arith,
  h j k,
  get-track channel id metadata now t j k,
  listed-track channel id metadata now t j k,
)
step-IsIndexed t (untracks channel id) v h j k =
    ground (arith, h j k, get-untrack channel id t j k, listed-untrack channel id t j k)
step-IsIndexed t (leaves_all id) v h j k = ground (
  arith,
  h j k,
  h j id,
  eq_iff id k,
  get-untrack_all id t j k,
  listed-untrack_all id t j k,
  listed-channels_of j id t,
  λ (q : id ≡ k). ap {B = Option PresenceInfo} (λ z. get j z t) q,
)
step-IsIndexed t (updates channel id metadata now) v h j k =
    ground (arith, h j k, get-update channel id metadata now t j k)
step-IsIndexed t (touches channel id now) v h j k =
    ground (arith, h j k, get-touch channel id now t j k)
step-IsIndexed t (flushes channel) v h j k = ground (arith, h j k, member-flush channel t j k)
step-IsIndexed t (evicts now timeout) (d, a) h j k = ground (
  arith,
  h j k,
  get-evict_stale now timeout t j k a,
  has_pair-evict_stale now timeout t j k d a,
  listed-evict_stale now timeout t j k,
)
step-IsIndexed t clears v h j k = unfold clear get listed Map.lookup in refl

run-IsIndexed :
    (t : PresenceTracker) (cs : List Call) → HasDistinctKeys t → IsIndexed t → IsIndexed (run t cs)
unfolding run
run-IsIndexed t [] v h = h
run-IsIndexed t (c ∷ cs) v h =
    run-IsIndexed (step t c) cs (step-HasDistinctKeys t c v) (step-IsIndexed t c v h)

-- After any calls on a new tracker, a channel is on a client's list exactly when the client is
-- present in the channel.
pub elem-channels_of-run :
    (calls : List Call) (channel id : String)
    → elem channel (channels_of id (run new calls)) ≡ is_some (get channel id (run new calls))
elem-channels_of-run calls channel id =
    sym (listed-channels_of channel id (run new calls))
    ∙ run-IsIndexed new calls (tt, tt) (λ j k. unfold get listed Map.lookup in refl) channel id

-- `untrack_all`, after any calls on a new tracker, leaves the client present nowhere, and every
-- other client as it was.
pub get-untrack_all-run :
    (calls : List Call) (id j k : String)
    → get j k (untrack_all id (run new calls)).0
      ≡ (if id == k then none else get j k (run new calls))
get-untrack_all-run calls id j k = ground (
  arith,
  eq_iff id k,
  get-untrack_all id (run new calls) j k,
  elem-channels_of-run calls j id,
  λ (q : id ≡ k). ap {B = Option PresenceInfo} (λ z. get j z (run new calls)) q,
)
