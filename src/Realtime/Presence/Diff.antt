-- ===== src/Realtime/Presence/Diff.antt =====
-- What the diff of a channel says about who is present in it.
use hypern.Prelude.{
  ℕ, String, ◌≡◌, refl, ◌∙◌, inl, inr, true, false, Option, none, some, List, [], ◌∷◌, ◌++◌, arith,
  eq_refl, Option-cases, is_some, or_default, is_empty, string_eq, nat_eq,
}
use hypern.Prelude.Map
use hypern.Prelude.Map.{Map, lookup-insert, lookup-remove, lookup-modify}
use hypern.Realtime.Presence.{
  PresenceInfo, PresenceDiff, ChannelPresence, PresenceTracker, new_channel, new_info, add_member,
  queue_join, track, leave, untrack, get, flush_diff,
}
use hypern.Realtime.Presence.Lookup.{get-track, get-untrack}

-- The diff that `flush_diff` would return.
abbrev pub diff_of : String → PresenceTracker → PresenceDiff
diff_of channel t = (flush_diff channel t).1

-- `track` adds one join to its channel's diff, and no leave.
pub diff-track :
    (channel id : String) (metadata : Option (Map String String)) (now : ℕ) (t : PresenceTracker)
    → (diff_of channel (track channel id metadata now t).0 ≡ record {
      joins = (diff_of channel t).joins ++ new_info id channel metadata now ∷ [];
      leaves = (diff_of channel t).leaves;
    })
unfolding flush_diff track
diff-track channel id metadata now t = ground (
  arith,
  eq_refl channel,
  lookup-modify channel channel (queue_join info) (Map.insert channel entry t.channels),
  lookup-insert channel channel entry t.channels,
)
  where
    info : PresenceInfo
    info = new_info id channel metadata now

    entry : ChannelPresence
    entry = add_member id info (or_default new_channel (Map.lookup channel t.channels))

is_empty-append : (xs : List String) (a : String) → is_empty (xs ++ a ∷ []) ≡ false
is_empty-append [] a = refl
is_empty-append (x ∷ xs) a = refl

-- `untrack` of a client that is present adds one leave to its channel's diff, and no join.
pub diff-untrack :
    (channel id : String) (t : PresenceTracker)
    → is_some (get channel id t) ≡ true
    → (diff_of channel (untrack channel id t).0 ≡ record {
      joins = (diff_of channel t).joins;
      leaves = (diff_of channel t).leaves ++ id ∷ [];
    })
unfolding flush_diff untrack get
diff-untrack channel id t h = elim (Option-cases (Map.lookup channel t.channels)) [
  | inl e ↦ ground (arith, e)
  | inr (cp, e) ↦ ground (
    arith,
    e,
    eq_refl channel,
    lookup-modify channel channel (leave id) t.channels,
    is_empty-append cp.pending_leaves id,
  )
]

-- From two trackers with the same diff of a channel, the second with the client in it: joining and
-- leaving the first, and leaving and joining the second, give the same diff again, though the client
-- is absent from the first afterwards and present in the second. So a diff does not tell who is in
-- the channel.
pub diff_ambiguous :
    (channel id : String) (metadata : Option (Map String String)) (now : ℕ) (t s : PresenceTracker)
    → diff_of channel t ≡ diff_of channel s
    → is_some (get channel id s) ≡ true
    → let joined = track channel id metadata now t in
      let visitor = (untrack channel id joined.0).0 in
      let returned = (track channel id metadata now (untrack channel id s).0).0 in
      (diff_of channel visitor ≡ diff_of channel returned)
      × (get channel id visitor ≡ none)
      × (get channel id returned ≡ some (new_info id channel metadata now))
diff_ambiguous channel id metadata now t s same here = (
  diff-untrack channel id joined present
      ∙ cc (
        diff-track channel id metadata now t,
        diff-track channel id metadata now (untrack channel id s).0,
        diff-untrack channel id s here,
        same,
      ),
  ground (arith, eq_refl channel, eq_refl id, get-untrack channel id joined channel id),
  ground (
    arith,
    eq_refl channel,
    eq_refl id,
    get-track channel id metadata now (untrack channel id s).0 channel id,
  ),
)
  where
    joined : PresenceTracker
    joined = (track channel id metadata now t).0

    present : is_some (get channel id joined) ≡ true
    present =
        ground (arith, eq_refl channel, eq_refl id, get-track channel id metadata now t channel id)
