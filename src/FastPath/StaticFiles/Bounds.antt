-- ===== src/FastPath/StaticFiles/Bounds.antt =====
-- How much the cache keeps when threads serve at once. Each takes the lock three times: to look for the
-- file, to ask for room, and to insert what it loaded.
use hypern.Core.Tasks.{pick}
use hypern.FastPath.StaticFiles.{
  CachedFile, StaticFileHandler, Entry, missing, unreadable, file, Served, ok, err, load_file,
  clean_path, clear_cache, has_room, keep_file,
}
use hypern.Prelude.Map
use hypern.Prelude.Map.{Map}
use hypern.Prelude.Map.All.{AllValues, insert-AllValues}
use hypern.Prelude.Text.{contains}
use hypern.Prelude.{
  ℕ, zero, suc, ◌+◌, ◌-◌, ◌≤◌, ◌<◌, String, ◌≡◌, refl, sym, subst, inl, inr, Option, none, some,
  List, [], ◌∷◌, arith, ltb, if◌then◌else◌, if-both, if-split, Option-cases, length, string_eq,
  nat_eq,
}

-- A thread normalizes a path and looks for it in the cache; one that did not find its path loads the
-- file and asks for room; one that was given room inserts; or the cache is cleared. The number says
-- which of the threads, and the disk is the one of that time.
pub data Event : Type 0 where
  looks : String → Event
  loads : (String → Entry) → ℕ → Event
  inserts : ℕ → Event
  clears : Event

-- The handler, the paths that threads did not find, and the files that threads hold after the test.
pub record Shared : Type 0 where
  pub handler : StaticFileHandler
  pub missed : List String
  pub held : Map String CachedFile

abbrev pub alone : StaticFileHandler → Shared
alone h = record { handler = h; missed = []; held = [] }

-- The cache has at most so many files, none longer than so many bytes.
abbrev pub IsWithin : ℕ → ℕ → StaticFileHandler → Type 0
IsWithin entries bytes h =
    (length h.cache ≤ entries) × AllValues (λ (f : CachedFile). f.size ≤ bytes) h.cache

abbrev IsFit : ℕ → Served → Type 0
IsFit bytes (ok f) = f.size ≤ bytes
IsFit bytes (err e) = Unit

length-pick :
    {A : Type 0} (n : ℕ) (xs : List A) (x : A) (rest : List A)
    → pick n xs ≡ some (x, rest)
    → length xs ≡ suc (length rest)
unfolding pick
length-pick n [] x rest h = ground (arith, h)
length-pick zero (y ∷ ys) x rest h = ground (arith, h)
length-pick (suc n) (y ∷ ys) x rest h = elim (Option-cases (pick n ys)) [
  | inl e ↦ ground (arith, e, h)
  | inr ((z, zs), e) ↦ ground (arith, e, h, length-pick n ys z zs e)
]

-- The predicate of what was taken out and of the others.
abbrev AllPicked :
    (CachedFile → Type 0) → Option ((String × CachedFile) × Map String CachedFile) → Type 0
AllPicked P none = Unit
AllPicked P (some (x, rest)) = P x.1 × AllValues P rest

AllPicked-cons :
    (P : CachedFile → Type 0) (x : String × CachedFile)
    (o : Option ((String × CachedFile) × Map String CachedFile))
    → P x.1
    → AllPicked P o
    → AllPicked P (elim o [ none ↦ none | some (y, ys) ↦ some (y, x ∷ ys) ])
AllPicked-cons P x none p a = tt
AllPicked-cons P x (some (y, ys)) p (q, a) = (q, (p, a))

pick-AllPicked :
    (P : CachedFile → Type 0) (n : ℕ) (m : Map String CachedFile)
    → AllValues P m
    → AllPicked P (pick n m)
unfolding pick
pick-AllPicked P n [] a = tt
pick-AllPicked P zero (x ∷ m) (p, a) = (p, a)
pick-AllPicked P (suc n) (x ∷ m) (p, a) = AllPicked-cons P x (pick n m) p (pick-AllPicked P n m a)

module _ (join : String → String → String) (etag_of : ℕ → ℕ → String)
    (extension : String → String) where
  abbrev after_look : String → Option CachedFile → Shared → Shared
  after_look clean (some f) s = s
  after_look clean none s = record s { missed = clean ∷ s.missed }

  abbrev after_load : String → Served → Shared → Shared
  after_load clean (err e) s = s
  after_load clean (ok f) s =
      if has_room join etag_of extension s.handler
      then record s { held = (clean, f) ∷ s.held }
      else s

  abbrev load_one : (String → Entry) → Option (String × List String) → Shared → Shared
  load_one disk none s = s
  load_one disk (some (clean, missed)) s =
      let full_path = join s.handler.root_path clean in
      after_load clean
        (load_file join etag_of extension full_path (disk full_path) s.handler.max_file_size)
        (record s { missed = missed })

  abbrev insert_one : Option ((String × CachedFile) × Map String CachedFile) → Shared → Shared
  insert_one none s = s
  insert_one (some ((clean, f), held)) s = record s {
    handler = keep_file join etag_of extension clean f s.handler;
    held = held;
  }

  -- With this many threads; a thread that is busy looks for nothing else.
  unfoldable pub step : ℕ → Event → Shared → Shared
  unfolding load_file
  step threads (looks path) s =
      let clean = clean_path path in
      let looked = after_look clean (Map.lookup clean s.handler.cache) s in
      if ltb (length s.missed + length s.held) threads
      then (if contains clean ".." then s else looked)
      else s
  step threads (loads disk n) s = load_one disk (pick n s.missed) s
  step threads (inserts n) s = insert_one (pick n s.held) s
  step threads clears s = record s { handler = clear_cache s.handler }

  unfoldable pub run : ℕ → List Event → Shared → Shared
  unfolding step
  run threads [] s = s
  run threads (e ∷ es) s = run threads es (step threads e s)

  load_file-IsFit :
      (path : String) (e : Entry) (bytes : ℕ)
      → IsFit bytes (load_file join etag_of extension path e bytes)
  unfolding load_file
  load_file-IsFit path missing bytes = tt
  load_file-IsFit path unreadable bytes = tt
  load_file-IsFit path (file text size modified) bytes =
      if-split (IsFit bytes) (ltb bytes size) (λ e. tt) (λ e. ground (arith, e))

  -- The threads are no more than there are, and what they hold counts as kept.
  abbrev IsBounded : ℕ → ℕ → ℕ → Shared → Type 0
  IsBounded threads entries bytes s =
      (s.handler.max_cache_size ≡ entries)
      × (s.handler.max_file_size ≡ bytes)
      × (length s.missed + length s.held ≤ threads)
      × (length s.handler.cache + length s.held ≤ entries + (threads - 1))
      × AllValues (λ (f : CachedFile). f.size ≤ bytes) s.handler.cache
      × AllValues (λ (f : CachedFile). f.size ≤ bytes) s.held

  after_load-IsBounded :
      (threads entries bytes : ℕ) (clean : String) (l : Served) (s : Shared)
      → IsFit bytes l
      → length s.missed + length s.held < threads
      → IsBounded threads entries bytes s
      → IsBounded threads entries bytes (after_load clean l s)
  after_load-IsBounded threads entries bytes clean (err e) s fit free b = b
  after_load-IsBounded threads entries bytes clean (ok f) s fit free
        (room, limit, busy, le, kept, held) =
      if-split (IsBounded threads entries bytes) (has_room join etag_of extension s.handler)
        (λ e.
          let less : length s.handler.cache < entries = ground (arith, e, room) in
          (room, limit, omega (arith, free), omega (arith, less, free), kept, (fit, held)))
        (λ e. (room, limit, busy, le, kept, held))

  step-IsBounded :
      (threads entries bytes : ℕ) (e : Event) (s : Shared)
      → IsBounded threads entries bytes s
      → IsBounded threads entries bytes (step threads e s)
  unfolding step
  step-IsBounded threads entries bytes (looks path) s (room, limit, busy, le, kept, held) =
      if-split (IsBounded threads entries bytes) (ltb (length s.missed + length s.held) threads)
        (λ e.
          let free : length s.missed + length s.held < threads = ground (arith, e) in
          if-both (IsBounded threads entries bytes) (contains (clean_path path) "..")
            (room, limit, busy, le, kept, held)
            (looked (clean_path path) (Map.lookup (clean_path path) s.handler.cache) free))
        (λ e. (room, limit, busy, le, kept, held))
    where
      looked :
          (clean : String) (o : Option CachedFile)
          → length s.missed + length s.held < threads
          → IsBounded threads entries bytes (after_look clean o s)
      looked clean (some f) free = (room, limit, busy, le, kept, held)
      looked clean none free = (room, limit, omega (arith, free), le, kept, held)
  step-IsBounded threads entries bytes (loads disk n) s (room, limit, busy, le, kept, held) =
      elim (Option-cases (pick n s.missed)) [
        | inl e ↦ rw (e, load_one) (room, limit, busy, le, kept, held)
        | inr ((clean, rest), e) ↦
            let one = length-pick n s.missed clean rest e in
            let full = join s.handler.root_path clean in
            let fit : IsFit bytes
                (load_file join etag_of extension full (disk full) s.handler.max_file_size) =
              subst (λ k. IsFit bytes (load_file join etag_of extension full (disk full) k))
                (sym limit) (load_file-IsFit full (disk full) bytes) in
            rw (e, load_one)
              (after_load-IsBounded threads entries bytes clean _ (record s { missed = rest }) fit
                (omega (arith, busy, one)) (room, limit, omega (arith, busy, one), le, kept, held))
      ]
  step-IsBounded threads entries bytes (inserts n) s (room, limit, busy, le, kept, held) =
      elim (Option-cases (pick n s.held)) [
        | inl e ↦ rw (e, insert_one) (room, limit, busy, le, kept, held)
        | inr (((clean, f), rest), e) ↦
            let one = length-pick n s.held (clean, f) rest e in
            let (fit, others) =
              subst (AllPicked (λ (g : CachedFile). g.size ≤ bytes)) e
                (pick-AllPicked (λ (g : CachedFile). g.size ≤ bytes) n s.held held) in
            let grown = Map.length-insert clean f s.handler.cache in
            rw (e, insert_one)
              (
                room,
                limit,
                omega (arith, busy, one),
                ground (arith, le, one, grown),
                insert-AllValues (λ (g : CachedFile). g.size ≤ bytes) clean f s.handler.cache fit
                    kept,
                others,
              )
      ]
  step-IsBounded threads entries bytes clears s (room, limit, busy, le, kept, held) =
      (room, limit, busy, omega (arith, le), tt, held)

  run-IsBounded :
      (threads entries bytes : ℕ) (es : List Event) (s : Shared)
      → IsBounded threads entries bytes s
      → IsBounded threads entries bytes (run threads es s)
  unfolding run
  run-IsBounded threads entries bytes [] s b = b
  run-IsBounded threads entries bytes (e ∷ es) s b =
      run-IsBounded threads entries bytes es (step threads e s)
        (step-IsBounded threads entries bytes e s b)

  -- However the steps of the threads interleave, whatever is asked for and however the files change, a
  -- handler with an empty cache keeps at most its limit of files and one more for each thread beside
  -- the first, and no file longer than its limit. With one thread it keeps to its limit.
  pub run-IsWithin :
      (threads : ℕ) (es : List Event) (h : StaticFileHandler)
      → h.cache ≡ []
      → IsWithin
          (h.max_cache_size + (threads - 1))
          h.max_file_size
          (run threads es (alone h)).handler
  run-IsWithin threads es h e =
      let (room, limit, busy, le, kept, held) =
        run-IsBounded threads h.max_cache_size h.max_file_size es (alone h)
          (refl, refl, omega arith, rw e (omega arith), rw e tt, tt) in
      (omega (arith, le), kept)
