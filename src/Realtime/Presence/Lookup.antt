-- ===== src/Realtime/Presence/Lookup.antt =====
-- What each call does to `get` and to a client's list of channels, for every channel and client.
use mathlib.Core.Option
use hypern.Prelude.{
  ℕ, String, ◌≡◌, refl, ap, ◌∙◌, inl, inr, Bool, true, false, ◌&&◌, Option, none, some, List, [],
  ◌∷◌, ◌++◌, arith, eq_iff, if◌then◌else◌, Option-cases, ◌==◌, or_default, is_empty, elem,
  elem-append, discard, elem-discard, string_eq, nat_eq,
}
use hypern.Prelude.Map
use hypern.Prelude.Map.{Map, lookup-insert, lookup-remove, lookup-modify}
use hypern.Realtime.Presence.{
  touch, update, PresenceInfo, ChannelPresence, PresenceTracker, new_channel, new_info, add_member,
  queue_join, track, leave, drop_unused, unlist, untrack, leave_each, untrack_all, get,
  change_member, flushed, flush_diff, channels_of,
}

-- `get` on the channels alone.
unfoldable pub member : String → String → Map String ChannelPresence → Option PresenceInfo
member channel client_id m = elim (Map.lookup channel m) [
  | none ↦ none
  | some cp ↦ Map.lookup client_id cp.members
]

-- Whether a client's list of channels names a channel.
unfoldable pub listed : String → String → Map String (List String) → Bool
listed channel client_id m = elem channel (or_default [] (Map.lookup client_id m))

member-leave :
    (channel id j k : String) (m : Map String ChannelPresence)
    → member j k (Map.modify channel (leave id) m)
      ≡ (if channel == j && id == k then none else member j k m)
unfolding member
member-leave channel id j k m = elim (Option-cases (Map.lookup j m)) [
  | inl e ↦ ground (arith, e, lookup-modify channel j (leave id) m)
  | inr (cp, e) ↦ ground (
    arith,
    e,
    lookup-modify channel j (leave id) m,
    lookup-remove id k cp.members,
    eq_iff id k,
    λ (q : id ≡ k). ap (λ z. Map.lookup z cp.members) q,
  )
]

-- `track` makes the client present with the new information, and changes no one else.
pub get-track :
    (channel id : String) (metadata : Option (Map String String)) (now : ℕ) (t : PresenceTracker)
    (j k : String)
    → get j k (track channel id metadata now t).0
      ≡ (if channel == j && id == k then some (new_info id channel metadata now) else get j k t)
unfolding get track
get-track channel id metadata now t j k = ground (
  arith,
  lookup-modify channel j (queue_join info) (Map.insert channel (add_member id info cp) t.channels),
  lookup-insert channel j (add_member id info cp) t.channels,
  lookup-insert id k info cp.members,
  eq_iff channel j,
  λ (q : channel ≡ j). ap (λ z. Map.lookup z t.channels) q,
  empty_members k,
)
  where
    info : PresenceInfo
    info = new_info id channel metadata now

    cp : ChannelPresence
    cp = or_default new_channel (Map.lookup channel t.channels)

    empty_members : (z : String) → Map.lookup z new_channel.members ≡ none
    empty_members z = unfold Map.lookup in refl

lookup_of_is_empty {ℓ} :
    {V : Type ℓ} (k : String) (m : Map String V) → is_empty m ≡ true → Map.lookup k m ≡ none
unfolding Map.lookup
lookup_of_is_empty k [] h = refl
lookup_of_is_empty k (e ∷ m) h = cc

member-drop_unused :
    (channel j k : String) (m : Map String ChannelPresence)
    → member j k (drop_unused channel m) ≡ member j k m
unfolding drop_unused member
member-drop_unused channel j k m = elim (Option-cases (Map.lookup channel m)) [
  | inl e ↦ rw (e, drop_unused)
  | inr (cp, e) ↦ ground (
    arith,
    e,
    lookup-remove channel j m,
    eq_iff channel j,
    λ (q : channel ≡ j). ap (λ z. Map.lookup z m) q,
    lookup_of_is_empty k cp.members,
  )
]

-- `untrack` makes the client absent from the channel, and changes no one else.
pub get-untrack :
    (channel id : String) (t : PresenceTracker) (j k : String)
    → get j k (untrack channel id t).0 ≡ (if channel == j && id == k then none else get j k t)
unfolding get untrack
get-untrack channel id t j k =
    unfold member in
    (member-drop_unused channel j k (Map.modify channel (leave id) t.channels)
      ∙ member-leave channel id j k t.channels)

member-leave_each :
    (id : String) (cs : List String) (m : Map String ChannelPresence) (j k : String)
    → member j k (leave_each id cs m) ≡ (if id == k && elem j cs then none else member j k m)
unfolding leave_each
member-leave_each id [] m j k = ground arith
member-leave_each id (c ∷ cs) m j k =
    ground (arith, member-leave_each id cs (Map.modify c (leave id) m) j k, member-leave c id j k m)

-- `untrack_all` makes the client absent from every channel on its list, and changes no one else.
pub get-untrack_all :
    (id : String) (t : PresenceTracker) (j k : String)
    → get j k (untrack_all id t).0
      ≡ (if id == k && elem j (channels_of id t) then none else get j k t)
unfolding untrack_all get channels_of
get-untrack_all id t j k = elim (Option-cases (Map.lookup id t.client_channels)) [
  | inl e ↦ ground (arith, e)
  | inr (cs, e) ↦
      rw (e, untrack_all, channels_of) (unfold member in member-leave_each id cs t.channels j k)
]

pub member-change :
    (channel id : String) (f : PresenceInfo → PresenceInfo) (m : Map String ChannelPresence)
    (j k : String)
    → member j k (Map.modify channel (change_member id f) m)
      ≡ (if channel == j && id == k then Option.map f (member j k m) else member j k m)
unfolding member
member-change channel id f m j k = elim (Option-cases (Map.lookup j m)) [
  | inl e ↦ ground (arith, e, lookup-modify channel j (change_member id f) m)
  | inr (cp, e) ↦
      ground
        (arith, e, lookup-modify channel j (change_member id f) m, lookup-modify id k f cp.members)
]

pub member-flush :
    (channel : String) (t : PresenceTracker) (j k : String)
    → get j k (flush_diff channel t).0 ≡ get j k t
unfolding get flush_diff
member-flush channel t j k = ground (arith, lookup-modify channel j flushed t.channels)

pub listed-track :
    (channel id : String) (metadata : Option (Map String String)) (now : ℕ) (t : PresenceTracker)
    (j k : String)
    → listed j k (track channel id metadata now t).0.client_channels
      ≡ (if channel == j && id == k then true else listed j k t.client_channels)
unfolding listed track
listed-track channel id metadata now t j k = ground (
  arith,
  lookup-insert id k (old ++ channel ∷ []) t.client_channels,
  elem-append j old (channel ∷ []),
  eq_iff id k,
  λ (q : id ≡ k). ap (λ z. Map.lookup z t.client_channels) q,
)
  where
    old : List String
    old = or_default [] (Map.lookup id t.client_channels)

elem_of_is_empty : (j : String) (xs : List String) → is_empty xs ≡ true → elem j xs ≡ false
elem_of_is_empty j [] h = refl
elem_of_is_empty j (x ∷ xs) h = cc

pub listed-unlist :
    (channel id j k : String) (m : Map String (List String))
    → listed j k (unlist channel id m) ≡ (if channel == j && id == k then false else listed j k m)
unfolding listed unlist
listed-unlist channel id j k m = elim (Option-cases (Map.lookup id m)) [
  | inl e ↦ ground (arith, e, eq_iff id k, λ (q : id ≡ k). ap (λ z. Map.lookup z m) q)
  | inr (cs, e) ↦ ground (
    arith,
    e,
    lookup-remove id k m,
    lookup-modify id k (discard channel) m,
    elem-discard channel j cs,
    elem_of_is_empty j (discard channel cs),
    eq_iff id k,
    λ (q : id ≡ k). ap (λ z. Map.lookup z m) q,
  )
]

pub listed-untrack_all :
    (id : String) (t : PresenceTracker) (j k : String)
    → listed j k (untrack_all id t).0.client_channels
      ≡ (if id == k then false else listed j k t.client_channels)
unfolding listed untrack_all
listed-untrack_all id t j k = ground (
  arith,
  lookup-remove id k t.client_channels,
  eq_iff id k,
  λ (q : id ≡ k). ap (λ z. Map.lookup z t.client_channels) q,
)

pub listed-untrack :
    (channel id : String) (t : PresenceTracker) (j k : String)
    → listed j k (untrack channel id t).0.client_channels
      ≡ (if channel == j && id == k then false else listed j k t.client_channels)
unfolding untrack
listed-untrack channel id t j k = listed-unlist channel id j k t.client_channels

pub get-update :
    (channel id : String) (metadata : Map String String) (now : ℕ) (t : PresenceTracker)
    (j k : String)
    → get j k (update channel id metadata now t).0 ≡ (
        if channel == j && id == k
        then Option.map {A = PresenceInfo}
            (λ i. record i { metadata = metadata; last_seen = now })
            (get j k t)
        else get j k t)
unfolding get update member
get-update channel id metadata now t j k =
    member-change channel id (λ i. record i { metadata = metadata; last_seen = now }) t.channels j k

pub get-touch :
    (channel id : String) (now : ℕ) (t : PresenceTracker) (j k : String)
    → get j k (touch channel id now t).0 ≡ (
        if channel == j && id == k
        then Option.map {A = PresenceInfo} (λ i. record i { last_seen = now }) (get j k t)
        else get j k t)
unfolding get touch member
get-touch channel id now t j k =
    member-change channel id (λ i. record i { last_seen = now }) t.channels j k

pub listed-channels_of :
    (j id : String) (t : PresenceTracker)
    → listed j id t.client_channels ≡ elem j (channels_of id t)
unfolding listed channels_of
listed-channels_of j id t = refl
